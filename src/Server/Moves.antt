-- ===== src/Server/Moves.antt =====
-- What a request can do to the session of its connection: `execute` as a machine of few moves.
use smbanything.Base.{
  ℕ, ◌+◌, ◌%◌, ◌^◌, ◌≡◌, refl, inl, inr, Bool, true, false, not, ◌||◌, List, Option, none, some,
  Result, ok, err, arith, ◌==◌, if_cases, Bool-cases, Option-cases,
}
use smbanything.Platform.{Platform}
use smbanything.Proto.Cmd
use smbanything.Server.Commands
use smbanything.Server.Commands.{answered, on_files, on_pipe}
use smbanything.Server.Execute.{execute, gated, run_command, lacks_session, file_commands}
use smbanything.Server.State.{Ctx, Conn, Outside, Request, Reply, logon_limit_reached}
use smbanything.Session.Negotiate
use smbanything.Session.Negotiate.{read_negotiate}
use smbanything.Session.Setup
use smbanything.Session.Setup.{Drawn, issue_challenge}
use smbanything.Session.Setup.Admission.{Proves, session_setup_cases}
use smbanything.Session.State.{TreeKind, disk, ipc, SessionState, tree_kind, remove_tree}
use smbanything.Session.Trees.{add_tree}
use smbanything.Session.Trees.Grants.{tree_connect-add_tree}
use smbanything.Wire.Reader.{open_at_start}

not-false : (b : Bool) → not b ≡ false → b ≡ true
not-false true h = refl
not-false false h = cc

module _ (platform : Platform) (ctx : Ctx) where
  -- Nothing, a settled dialect, a challenge, a challenge spent in vain, a logon that proves the
  -- account's password for the outstanding challenge, a logoff, or a tree added or removed.
  pub data Moves (s s' : SessionState) : Type 0 where
    stays : s' ≡ s → Moves s s'
    settles : s' ≡ record s { negotiated = true } → Moves s s'
    challenges : (drawn : Drawn) → s.negotiated ≡ true → s' ≡ issue_challenge drawn s → Moves s s'
    spends : (n : ℕ) → s' ≡ record s { server_challenge = none; failed_logons = n } → Moves s s'
    logs_in :
        (ntlmssp challenge key : List ℕ)
        → s.negotiated ≡ true
        → s.server_challenge ≡ some challenge
        → Proves platform ctx.credentials ntlmssp challenge key
        → s' ≡ record s {
          server_challenge = none;
          signing_key = some key;
          authenticated = true;
          failed_logons = 0;
        }
        → Moves s s'
    logs_out :
        s.authenticated ≡ true
        → s' ≡ record s { authenticated = false; session_id = 0 }
        → Moves s s'
    connects : (kind : TreeKind) → s.authenticated ≡ true → s' ≡ (add_tree kind s).1 → Moves s s'
    disconnects : (id : ℕ) → s.authenticated ≡ true → s' ≡ (remove_tree id s).1 → Moves s s'

  module _ (outside : Outside) (req : Request) (s : Conn) where
    abbrev Kept : Result Reply × Conn → Type 0
    Kept x = Moves s.session x.1.session

    abbrev ResultKept : Option (Result Reply) × Conn → Type 0
    ResultKept x = Moves s.session x.1.session

    pub answered_conn : {A : Type 0} (f : A → Reply) (x : Result A × Conn) → (answered f x).1 ≡ x.1
    answered_conn f (ok a, t) = refl
    answered_conn f (err e, t) = refl

    -- A handler that does not see the session.
    answered-Moves :
        {A : Type 0} (f : A → Reply) (x : Result A × Conn)
        → x.1.session ≡ s.session
        → Moves s.session (answered f x).1.session
    answered-Moves f x h = stays (rw (answered_conn f x) h)

    negotiate-Moves : Moves s.session (Commands.negotiate platform ctx outside req s).1.session
    unfolding Negotiate.negotiate
    negotiate-Moves = elim (Option-cases (read_negotiate (open_at_start req.body))) [
      | inl a ↦ rw (a, Negotiate.negotiate) (stays refl)
      | inr ((offered, r), a) ↦ elim (Bool-cases offered) [
        | inl b ↦ rw (a, b, Negotiate.negotiate) (settles refl)
        | inr b ↦ rw (a, b, Negotiate.negotiate) (stays refl)
      ]
    ]

    abbrev setup : Result (ℕ × List ℕ) × SessionState
    setup =
        Setup.session_setup platform req.body req.message ctx.credentials outside.drawn s.session

    count_logon-Moves :
        s.session.negotiated ≡ true
        → Moves s.session
            (Commands.count_logon platform ctx outside req
              (setup.0, record s { session = setup.1 })).1.session
    count_logon-Moves settled =
        elim (session_setup_cases platform ctx.credentials req.body req.message outside.drawn
          s.session) [
            | inl (bare, bad) ↦ rw bad (stays refl)
            | inr (msg_type, framing, ntlmssp, carries, inl (n, e)) ↦
                rw e (challenges outside.drawn settled refl)
            | inr (msg_type, framing, ntlmssp, carries, inr (inl (n, nothing, e))) ↦
                rw e (spends ((s.session.failed_logons + 1) % 2 ^ 32) refl)
            | inr
                  (
                    msg_type,
                    framing,
                    ntlmssp,
                    carries,
                    inr (inr (inl (key, n, (challenge, held, proof), e))),
                  ) ↦
                rw e (logs_in ntlmssp challenge key settled held proof refl)
            | inr (msg_type, framing, ntlmssp, carries, inr (inr (inr (m, n, e)))) ↦
                rw e (stays refl)
          ]

    session_setup-Moves :
        Moves s.session (Commands.session_setup platform ctx outside req s).1.session
    session_setup-Moves =
        if_cases Kept (not s.session.negotiated) (λ early. stays refl)
          (λ settled.
            if_cases Kept (logon_limit_reached s) (λ limit. stays refl)
              (λ room. count_logon-Moves (not-false s.session.negotiated settled)))

    connect_tree-Moves :
        s.session.authenticated ≡ true
        → Moves s.session (Commands.connect_tree platform ctx outside req s).1.session
    connect_tree-Moves live =
        elim (tree_connect-add_tree req.body req.message ctx.share_name s.session) [
          | inl (e, why, refused) ↦ rw refused (stays refl)
          | inr (name, disk, id, s', names, named, adds, added, e) ↦
              rw e (connects disk live (rw added refl))
          | inr (name, ipc, id, s', names, named, adds, added, e) ↦
              rw e (connects ipc live (rw added refl))
        ]

    disconnect_tree-Moves :
        s.session.authenticated ≡ true
        → Moves s.session (Commands.disconnect_tree platform ctx outside req s).1.session
    disconnect_tree-Moves live = elim (Option-cases (remove_tree req.tree_id s.session).0) [
      | inl a ↦ rw a (disconnects req.tree_id live refl)
      | inr (disk, a) ↦ rw a (disconnects req.tree_id live refl)
      | inr (ipc, a) ↦ rw a (disconnects req.tree_id live refl)
    ]

    file_command-Moves :
        Moves s.session (Commands.file_command platform ctx outside req s).1.session
    file_command-Moves =
        if_cases Kept (req.hdr.command == Cmd.close) (λ h. answered-Moves _ _ refl)
          (λ h.
            if_cases Kept (req.hdr.command == Cmd.create) (λ h. answered-Moves _ _ refl)
              (λ h.
                if_cases Kept (req.hdr.command == Cmd.read) (λ h. answered-Moves _ _ refl)
                  (λ h.
                    if_cases Kept (req.hdr.command == Cmd.query_directory)
                      (λ h. answered-Moves _ _ refl)
                      (λ h.
                        if_cases Kept (req.hdr.command == Cmd.query_info)
                          (λ h. answered-Moves _ _ refl) (λ h. stays refl)))))

    ipc_command-Moves : Moves s.session (Commands.ipc_command platform ctx outside req s).1.session
    ipc_command-Moves =
        if_cases Kept (req.hdr.command == Cmd.create) (λ h. answered-Moves _ _ refl)
          (λ h.
            if_cases Kept (req.hdr.command == Cmd.close) (λ h. answered-Moves _ _ refl)
              (λ h.
                if_cases Kept (req.hdr.command == Cmd.read) (λ h. answered-Moves _ _ refl)
                  (λ h. stays refl)))

    tree_command-Moves :
        Moves s.session (Commands.tree_command platform ctx outside req s).1.session
    tree_command-Moves = elim (Option-cases (tree_kind req.tree_id s.session)) [
      | inl a ↦ rw a (stays refl)
      | inr (disk, a) ↦ rw a file_command-Moves
      | inr (ipc, a) ↦ rw a ipc_command-Moves
    ]

    write-Moves : Moves s.session (Commands.write platform ctx outside req s).1.session
    write-Moves =
        if_cases Kept (Commands.is_srvsvc_pipe platform ctx outside req s)
          (λ h. answered-Moves _ _ refl) (λ h. stays refl)

    ioctl-Moves : Moves s.session (Commands.ioctl platform ctx outside req s).1.session
    ioctl-Moves =
        if_cases Kept (Commands.is_srvsvc_pipe platform ctx outside req s)
          (λ h. answered-Moves _ _ refl) (λ h. stays refl)

    live :
        (c : ℕ)
        → lacks_session platform ctx outside req s ≡ false
        → (req.hdr.command == c) ≡ true
        → (Cmd.negotiate == c) ≡ false
        → (Cmd.session_setup == c) ≡ false
        → (Cmd.echo == c) ≡ false
        → s.session.authenticated ≡ true
    unfolding lacks_session
    live c h e a b d = ground arith

    run_command-Moves :
        lacks_session platform ctx outside req s ≡ false
        → Kept (run_command platform ctx outside req s)
    unfolding run_command
    run_command-Moves h =
        if_cases Kept (req.hdr.command == Cmd.negotiate) (λ e. negotiate-Moves)
          (λ _.
            if_cases Kept (req.hdr.command == Cmd.session_setup) (λ e. session_setup-Moves)
              (λ _.
                if_cases Kept (req.hdr.command == Cmd.logoff)
                  (λ e. logs_out (live Cmd.logoff h e refl refl refl) refl)
                  (λ _.
                    if_cases Kept (req.hdr.command == Cmd.tree_connect)
                      (λ e. connect_tree-Moves (live Cmd.tree_connect h e refl refl refl))
                      (λ _.
                        if_cases Kept (req.hdr.command == Cmd.tree_disconnect)
                          (λ e. disconnect_tree-Moves (live Cmd.tree_disconnect h e refl refl refl))
                          (λ _.
                            if_cases Kept (req.hdr.command == Cmd.echo) (λ e. stays refl)
                              (λ _.
                                if_cases Kept (req.hdr.command == Cmd.write) (λ e. write-Moves)
                                  (λ _.
                                    if_cases Kept
                                      (req.hdr.command == Cmd.set_info
                                        || req.hdr.command == Cmd.flush)
                                      (λ e. stays refl)
                                      (λ _.
                                        if_cases Kept (file_commands req.hdr.command)
                                          (λ e. tree_command-Moves)
                                          (λ _.
                                            if_cases Kept (req.hdr.command == Cmd.ioctl)
                                              (λ e. ioctl-Moves) (λ _. stays refl))))))))))

    -- Every request on every state moves the session in one of the ways of `Moves`, and in no other: in
    -- particular a session is authenticated only by a message of the account that proves the password for
    -- the challenge outstanding, and only an authenticated one is logged off or gains or loses a tree.
    pub execute-Moves : Moves s.session (execute platform ctx outside req s).1.session
    unfolding execute gated
    execute-Moves =
        if_cases ResultKept (req.hdr.command == Cmd.cancel)
          (λ e. if_cases ResultKept req.is_only (λ alone. stays refl) (λ chained. stays refl))
          (λ _.
            if_cases Kept (lacks_session platform ctx outside req s) (λ h. stays refl)
              run_command-Moves)
