-- ===== src/Server/Limit.antt =====
-- The limit on refused logons of a server: mod.rs.
use smbanything.Base.{
  ◌≤◌, ◌≡◌, refl, inl, inr, true, false, not, Option, Result, arith, ◌==◌, if_cases, Bool-cases,
  Option-cases,
}
use smbanything.Platform.{Platform}
use smbanything.Proto.Cmd
use smbanything.Server.Commands
use smbanything.Server.Execute.{execute, gated, run_command, lacks_session}
use smbanything.Server.Gate.{open_command}
use smbanything.Server.State.{
  Ctx, Conn, Outside, Request, Reply, logon_limit_reached, max_server_logon_failures,
}
use smbanything.Session.Negotiate
use smbanything.Session.Negotiate.{read_negotiate}
use smbanything.Wire.Reader.{open_at_start}

module _ (platform : Platform) (ctx : Ctx) (outside : Outside) (req : Request) (s : Conn) where
  abbrev pub Locked : Conn → Type 0
  Locked t =
      (t.session.authenticated ≡ s.session.authenticated)
      × (t.session.signing_key ≡ s.session.signing_key)
      × (t.session.server_challenge ≡ s.session.server_challenge)
      × (t.failed_logons ≡ s.failed_logons)

  locked : Locked s
  locked = (refl, refl, refl, refl)

  negotiate-Locked : Locked (Commands.negotiate platform ctx outside req s).1
  unfolding Negotiate.negotiate
  negotiate-Locked = elim (Option-cases (read_negotiate (open_at_start req.body))) [
    | inl a ↦ rw (a, Negotiate.negotiate) locked
    | inr ((offered, r), a) ↦ elim (Bool-cases offered) [
      | inl b ↦ rw (a, b, Negotiate.negotiate) locked
      | inr b ↦ rw (a, b, Negotiate.negotiate) locked
    ]
  ]

  abbrev ResultLocked : Result Reply × Conn → Type 0
  ResultLocked x = Locked x.1

  session_setup-Locked :
      logon_limit_reached s ≡ true → Locked (Commands.session_setup platform ctx outside req s).1
  session_setup-Locked limit =
      if_cases ResultLocked (not s.session.negotiated) (λ h. locked)
        (λ h.
          if_cases ResultLocked (logon_limit_reached s) (λ h. locked)
            (λ room. absurd (ground (arith, limit, room))))

  run_command-Locked :
      logon_limit_reached s ≡ true
      → s.session.authenticated ≡ false
      → lacks_session platform ctx outside req s ≡ false
      → Locked (run_command platform ctx outside req s).1
  unfolding run_command
  run_command-Locked limit off h =
      elim (open_command platform ctx outside req s h (ground (arith, off))) [
        | inl e ↦ rw (run_command, e) negotiate-Locked
        | inr (inl e) ↦ rw (run_command, e) (session_setup-Locked limit)
        | inr (inr e) ↦ rw (run_command, e) locked
      ]

  -- Once the server has refused 1000 logons in a row, no request logs a connection in, the right password's included: a
  -- connection that is not authenticated stays so, gets no key and no challenge, and the count stays too.
  pub execute-Locked :
      max_server_logon_failures ≤ s.failed_logons
      → s.session.authenticated ≡ false
      → Locked (execute platform ctx outside req s).1
  unfolding execute gated logon_limit_reached
  execute-Locked limit off =
      if_cases (λ (x : Option (Result Reply) × Conn). Locked x.1) (req.hdr.command == Cmd.cancel)
        (λ e.
          if_cases (λ (x : Option (Result Reply) × Conn). Locked x.1) req.is_only (λ h. locked)
            (λ h. locked))
        (λ _.
          if_cases ResultLocked (lacks_session platform ctx outside req s) (λ h. locked)
            (λ h. run_command-Locked (ground (arith, limit)) off h))
