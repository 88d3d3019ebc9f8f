-- ===== src/Server/Gate.antt =====
-- What a peer without a session, and a write, can do: `execute` of mod.rs.
use smbanything.Base.{
  ℕ, ◌≡◌, refl, sym, ap, subst, ◌⊎◌, inl, inr, true, false, not, ◌&&◌, Option, some, Result, err,
  arith, ◌==◌, if_cases, Bool-cases, Option-cases,
}
use smbanything.Pipe
use smbanything.Pipe.{Pipe}
use smbanything.Platform.{Platform}
use smbanything.Proto.Cmd
use smbanything.Proto.Status
use smbanything.Server.Commands
use smbanything.Server.Commands.{answered, on_pipe}
use smbanything.Server.Execute.{execute, gated, run_command, lacks_session}
use smbanything.Server.Moves.{answered_conn}
use smbanything.Server.State.{
  Ctx, Conn, Outside, Request, Reply, reply_ok, logon_limit_reached, clear_failed_logons,
  record_failed_logon,
}
use smbanything.Session.Negotiate
use smbanything.Session.Negotiate.{read_negotiate}
use smbanything.Session.Setup
use smbanything.Session.Setup.{issue_challenge}
use smbanything.Session.Setup.Admission.{session_setup_cases}
use smbanything.Session.State.{disk, ipc, tree_kind}
use smbanything.Wire.Reader.{open_at_start}

module _ (platform : Platform) (ctx : Ctx) (outside : Outside) (req : Request) (s : Conn) where
  abbrev pub Untouched : Conn → Type 0
  Untouched t =
      (t.files ≡ s.files)
      × (t.pipe ≡ s.pipe)
      × (t.contents ≡ s.contents)
      × (t.session.trees ≡ s.session.trees)

  same : Untouched s
  same = (refl, refl, refl, refl)

  negotiate-Untouched : Untouched (Commands.negotiate platform ctx outside req s).1
  unfolding Negotiate.negotiate
  negotiate-Untouched = elim (Option-cases (read_negotiate (open_at_start req.body))) [
    | inl a ↦ rw (a, Negotiate.negotiate) same
    | inr ((offered, r), a) ↦ elim (Bool-cases offered) [
      | inl b ↦ rw (a, b, Negotiate.negotiate) same
      | inr b ↦ rw (a, b, Negotiate.negotiate) same
    ]
  ]

  count_logon-Untouched :
      Untouched
        (Commands.count_logon platform ctx outside req (
          Commands.on_session
            (Setup.session_setup platform req.body req.message ctx.credentials outside.drawn)
            s)).1
  unfolding issue_challenge clear_failed_logons record_failed_logon
  count_logon-Untouched =
      elim (session_setup_cases platform ctx.credentials req.body req.message outside.drawn
        s.session) [
          | inl (bare, bad) ↦ rw bad same
          | inr (msg_type, framing, ntlmssp, carries, inl (n, e)) ↦ rw e same
          | inr (msg_type, framing, ntlmssp, carries, inr (inl (n, nothing, e))) ↦ rw e same
          | inr (msg_type, framing, ntlmssp, carries, inr (inr (inl (key, n, proof, e)))) ↦
              rw e same
          | inr (msg_type, framing, ntlmssp, carries, inr (inr (inr (m, n, e)))) ↦ rw e same
        ]

  abbrev ResultUntouched : Result Reply × Conn → Type 0
  ResultUntouched x = Untouched x.1

  session_setup-Untouched : Untouched (Commands.session_setup platform ctx outside req s).1
  session_setup-Untouched =
      if_cases ResultUntouched (not s.session.negotiated) (λ h. same)
        (λ h.
          if_cases ResultUntouched (logon_limit_reached s) (λ h. same) (λ h. count_logon-Untouched))

  -- The commands that the gate lets through.
  pub open_command :
      lacks_session platform ctx outside req s ≡ false
      → (s.session.authenticated && req.session_id == s.session.session_id) ≡ false
      → (req.hdr.command ≡ Cmd.negotiate)
        ⊎ ((req.hdr.command ≡ Cmd.session_setup) ⊎ (req.hdr.command ≡ Cmd.echo))
  unfolding lacks_session
  open_command h off = ground arith

  run_command-Untouched :
      lacks_session platform ctx outside req s ≡ false
      → (s.session.authenticated && req.session_id == s.session.session_id) ≡ false
      → Untouched (run_command platform ctx outside req s).1
  unfolding run_command
  run_command-Untouched h off = elim (open_command h off) [
    | inl e ↦ rw (run_command, e) negotiate-Untouched
    | inr (inl e) ↦ rw (run_command, e) session_setup-Untouched
    | inr (inr e) ↦ rw (run_command, e) same
  ]

  -- A request on a connection that is not authenticated, or that names another session than the
  -- connection's, leaves the open files, the pipe, the contents and the trees as they are, whatever it asks for.
  pub execute-Untouched :
      (s.session.authenticated && req.session_id == s.session.session_id) ≡ false
      → Untouched (execute platform ctx outside req s).1
  unfolding execute gated
  execute-Untouched off =
      if_cases (λ (x : Option (Result Reply) × Conn). Untouched x.1) (req.hdr.command == Cmd.cancel)
        (λ e.
          if_cases (λ (x : Option (Result Reply) × Conn). Untouched x.1) req.is_only (λ h. same)
            (λ h. same))
        (λ _.
          if_cases ResultUntouched (lacks_session platform ctx outside req s) (λ h. same)
            (λ h. run_command-Untouched h off))

  abbrev pub IsWrite : ℕ → Type 0
  IsWrite c = (c ≡ Cmd.write) ⊎ ((c ≡ Cmd.set_info) ⊎ (c ≡ Cmd.flush))

  abbrev pub OnOpenPipe : Type 0
  OnOpenPipe =
      (req.hdr.command ≡ Cmd.write)
      × (tree_kind req.tree_id s.session ≡ some ipc)
      × ((pipe : Pipe) × (s.pipe ≡ some pipe))

  -- Refused with nothing changed, or a write to the pipe that changes the pipe alone.
  abbrev pub Protected : Option (Result Reply) × Conn → Type 0
  Protected x =
      ((e : ℕ) × (x ≡ (some (err e), s)))
      ⊎ (OnOpenPipe
          × (x.1.files ≡ s.files)
          × (x.1.contents ≡ s.contents)
          × (x.1.session ≡ s.session))

  srvsvc_open :
      Commands.is_srvsvc_pipe platform ctx outside req s ≡ true
      → (tree_kind req.tree_id s.session ≡ some ipc) × ((pipe : Pipe) × (s.pipe ≡ some pipe))
  srvsvc_open h = elim (Option-cases (tree_kind req.tree_id s.session)) [
    | inl a ↦ absurd (ground (arith, a, h))
    | inr (disk, a) ↦ absurd (ground (arith, a, h))
    | inr (ipc, a) ↦ elim (Option-cases s.pipe) [
      | inl b ↦ absurd (ground (arith, a, b, h))
      | inr (pipe, b) ↦ (a, (pipe, b))
    ]
  ]

  abbrev ProtectedRun : Result Reply × Conn → Type 0
  ProtectedRun x = Protected (some x.0, x.1)

  write-Protected :
      req.hdr.command ≡ Cmd.write → ProtectedRun (Commands.write platform ctx outside req s)
  write-Protected e =
      if_cases ProtectedRun (Commands.is_srvsvc_pipe platform ctx outside req s)
        (λ h.
          let written = on_pipe (Pipe.write req.body req.message ctx.share_name) s in
          let found = srvsvc_open h in
          let kept = answered_conn platform ctx outside req s reply_ok written in
          inr (
            (e, found.0, found.1),
            ap (λ (t : Conn). t.files) kept,
            ap (λ (t : Conn). t.contents) kept,
            ap (λ (t : Conn). t.session) kept,
          ))
        (λ h. inl (_, refl))

  run_write :
      req.hdr.command ≡ Cmd.write
      → run_command platform ctx outside req s ≡ Commands.write platform ctx outside req s
  unfolding run_command
  run_write e = rw (run_command, e) refl

  run_command-Protected :
      IsWrite req.hdr.command → ProtectedRun (run_command platform ctx outside req s)
  unfolding run_command
  run_command-Protected (inl e) = subst ProtectedRun (sym (run_write e)) (write-Protected e)
  run_command-Protected (inr (inl e)) =
      rw (run_command, e) (inl (Status.media_write_protected, refl))
  run_command-Protected (inr (inr e)) =
      rw (run_command, e) (inl (Status.media_write_protected, refl))

  gated-Protected : IsWrite req.hdr.command → ProtectedRun (gated platform ctx outside req s)
  unfolding gated
  gated-Protected w =
      if_cases ProtectedRun (lacks_session platform ctx outside req s)
        (λ h. inl (Status.user_session_deleted, refl)) (λ h. run_command-Protected w)

  -- No request writes to the share. A WRITE, SET_INFO or FLUSH is refused and changes nothing, except
  -- for a WRITE to the pipe that is open on an IPC$ tree, which leaves the open files, the contents and the session
  -- as they are.
  pub execute-Protected : IsWrite req.hdr.command → Protected (execute platform ctx outside req s)
  unfolding execute
  execute-Protected w =
      if_cases Protected (req.hdr.command == Cmd.cancel) (λ c. absurd (ground (arith, w, c)))
        (λ c. gated-Protected w)
