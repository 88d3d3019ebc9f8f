-- ===== src/Server/Reach.antt =====
-- The steps of a connection, those of the server's owner and of the other connections among them,
-- and the states that they reach.
use smbanything.Base.{
  ℕ, zero, suc, ◌+◌, ◌≡◌, refl, sym, subst, not, ◌&&◌, List, [], ◌∷◌, Option, none, some, Result,
  ltb, leb, ◌==◌, if_cases, length, drop, Option-cases, inl, inr,
}
use smbanything.Backing.{Backing}
use smbanything.Files.Handles.{clear_chain}
use smbanything.Files.State.{Shared}
use smbanything.Platform.{Platform}
use smbanything.Proto.Cmd
use smbanything.Proto.Header
use smbanything.Proto.Header.{Header}
use smbanything.Server.Execute.{execute}
use smbanything.Server.Invariant.{IsSound, Moves-IsSound, unkeyed-IsSound}
use smbanything.Server.Message.{
  Handled, replied, dropped, panicked, unfinished, Progress, Round, stop, again, move_on, settle,
  run_request, one_round, message_loop, handle_message, start_request, outcome, request_of,
  is_related, bad_next, link, follow, respond, next_chain,
}
use smbanything.Server.Moves.{execute-Moves}
use smbanything.Server.Serve.{Event, serve, finish, framed, admitted, drop_key}
use smbanything.Session.Negotiate.{is_smb1, is_smb1_negotiate}
use smbanything.Wire.Nbss.{NbssHeader, max_inbound_message}
use smbanything.Server.State.{
  Ctx, Conn, Outside, Request, Chain, Reply, new_chain, replace, max_compound_response,
  max_failed_logons,
}
use smbanything.Wire.Reader.{open_at_start}
use smbanything.Wire.Writer.{Writer, empty}

abbrev pub with_cleared_chain : Conn → Conn
with_cleared_chain s = record s { files = record s.files { handles = clear_chain s.files.handles } }

module _ (platform : Platform) (ctx : Ctx) where
  pub data Step (s s' : Conn) : Type 0 where
    requested :
        (outside : Outside) (req : Request)
        → s' ≡ (execute platform ctx outside req s).1
        → Step s s'
    chain_cleared : s' ≡ with_cleared_chain s → Step s s'
    key_dropped : s' ≡ drop_key s → Step s s'
    replaced : (backing : Backing) → s' ≡ replace backing s → Step s s'
    -- Other connections change the open files and the count of refused logons as they like.
    interfered :
        (shared : Shared) (failed_logons : ℕ)
        → s'
          ≡ record s { files = record s.files { shared = shared }; failed_logons = failed_logons }
        → Step s s'

  pub data Reaches (s : Conn) : Conn → Type 0 where
    here : Reaches s s
    further : {t u : Conn} → Reaches s t → Step t u → Reaches s u

  Step-IsSound : (s t : Conn) → Step s t → IsSound s.session → IsSound t.session
  unfolding drop_key replace
  Step-IsSound s t (requested outside req e) v =
      subst (λ u. IsSound u.session) (sym e)
        (Moves-IsSound platform ctx s.session _ (execute-Moves platform ctx outside req s) v)
  Step-IsSound s t (chain_cleared e) v = subst (λ u. IsSound u.session) (sym e) v
  Step-IsSound s t (key_dropped e) v =
      subst (λ u. IsSound u.session) (sym e)
        (if_cases (λ (u : Conn). IsSound u.session) s.session.authenticated (λ h. v)
          (λ off. unkeyed-IsSound s.session off v))
  Step-IsSound s t (replaced backing e) v = subst (λ u. IsSound u.session) (sym e) v
  Step-IsSound s t (interfered shared n e) v = subst (λ u. IsSound u.session) (sym e) v

  -- Whatever a connection is sent, and whatever the owner and other connections do in between, a sound
  -- session stays sound: at most 64 trees under distinct ids of 32 bits, no authenticated session without a
  -- signing key or before the dialect is settled, and no challenge outstanding before that.
  pub Reaches-IsSound : (s t : Conn) → Reaches s t → IsSound s.session → IsSound t.session
  Reaches-IsSound s _ here v = v
  Reaches-IsSound s _ (further {t = t} {u = u} r step) v =
      Step-IsSound t u step (Reaches-IsSound s t r v)

  module _ (outside : ℕ → Outside) (msg : List ℕ) (s : Conn) where
    abbrev RoundReaches : Round → Type 0
    RoundReaches (stop handled t) = Reaches s t
    RoundReaches (again p) = Reaches s p.conn

    abbrev HandledReaches : Handled × Conn → Type 0
    HandledReaches x = Reaches s x.1

    abbrev EventReaches : Event × Conn → Type 0
    EventReaches x = Reaches s x.1

    start_request-Reaches :
        (hdr : Header) (t : Conn) → Reaches s t → Reaches s (start_request hdr t)
    start_request-Reaches hdr t r =
        if_cases (λ (u : Conn). Reaches s u) (is_related hdr) (λ h. r)
          (λ h. further r (chain_cleared refl))

    outcome-Reaches :
        (o : Outside) (req : Request) (chain : Chain) (t : Conn)
        → Reaches s t
        → Reaches s (outcome platform ctx o req chain t).1
    unfolding outcome
    outcome-Reaches o req chain t r = elim (Option-cases chain.create_error) [
      | inl a ↦ rw (a, outcome) (further r (requested o req refl))
      | inr (status, a) ↦
          rw (a, outcome)
            (if_cases (λ (x : Option (Result Reply) × Conn). Reaches s x.1) req.related (λ h. r)
              (λ h. further r (requested o req refl)))
    ]

    move_on-Reaches :
        (hdr : Header) (chain : Chain) (linked : Option Writer) (offset : ℕ) (t : Conn)
        → Reaches s t
        → RoundReaches (move_on platform ctx outside msg hdr chain linked offset t)
    unfolding move_on
    move_on-Reaches hdr chain none offset t r = r
    move_on-Reaches hdr chain (some linked) offset t r =
        if_cases RoundReaches (leb (length msg) (offset + hdr.next_command)) (λ h. r) (λ h. r)

    settle-Reaches :
        (hdr : Header) (req : Request) (p : Progress) (answer : Option (Result Reply)) (t : Conn)
        → Reaches s t
        → RoundReaches (settle platform ctx outside msg hdr req p answer t)
    unfolding settle
    settle-Reaches hdr req p answer t r =
        let out = respond hdr answer p.out in
        let linked = link (length p.out.buf) out in
        if_cases RoundReaches (hdr.next_command == 0) (λ h. r)
          (λ h.
            if_cases {x = stop dropped t}
              {y = move_on platform ctx outside msg hdr (next_chain req answer p.chain) linked
                p.offset t}
              RoundReaches (ltb max_compound_response (length out.buf)) (λ h. r)
              (λ h. move_on-Reaches hdr (next_chain req answer p.chain) linked p.offset t r))

    run_request-Reaches :
        (hdr : Header) (chunk : List ℕ) (p : Progress)
        → Reaches s p.conn
        → RoundReaches (run_request platform ctx outside msg hdr chunk p)
    unfolding run_request
    run_request-Reaches hdr chunk p r =
        let req = request_of hdr chunk p.chain (p.offset == 0) in
        settle-Reaches hdr req p _ _ (
          outcome-Reaches (outside p.offset) req p.chain (start_request hdr p.conn)
            (start_request-Reaches hdr p.conn r))

    one_round-Reaches :
        (p : Progress) → Reaches s p.conn → RoundReaches (one_round platform ctx outside msg p)
    unfolding one_round
    one_round-Reaches p r = elim (Option-cases (Header.parse (open_at_start (drop p.offset msg)))) [
      | inl a ↦ rw (a, one_round) r
      | inr ((hdr, rest), a) ↦
          rw (a, one_round)
            (if_cases RoundReaches (bad_next hdr (drop p.offset msg)) (λ h. r)
              (λ h.
                if_cases RoundReaches (hdr.command == Cmd.negotiate && p.conn.session.negotiated)
                  (λ h. r) (λ h. run_request-Reaches hdr (drop p.offset msg) p r)))
    ]

    follow-Reaches :
        (next : Progress → Handled × Conn) (round : Round)
        → ((q : Progress) → Reaches s q.conn → Reaches s (next q).1)
        → RoundReaches round
        → Reaches s (follow next round).1
    follow-Reaches next (stop handled t) on r = r
    follow-Reaches next (again q) on r = on q r

    message_loop-Reaches :
        (fuel : ℕ) (p : Progress)
        → Reaches s p.conn
        → Reaches s (message_loop platform ctx outside msg fuel p).1
    unfolding message_loop
    message_loop-Reaches zero p r = r
    message_loop-Reaches (suc fuel) p r =
        follow-Reaches (message_loop platform ctx outside msg fuel)
          (one_round platform ctx outside msg p) (message_loop-Reaches fuel) (one_round-Reaches p r)

    handle_message-Reaches : Reaches s (handle_message platform ctx outside msg s).1
    unfolding handle_message
    handle_message-Reaches =
        if_cases HandledReaches (is_smb1_negotiate msg) (λ h. here)
          (λ h.
            if_cases HandledReaches (is_smb1 msg) (λ h. here)
              (λ h.
                message_loop-Reaches (length msg + 1)
                  (record { offset = 0; chain = new_chain; out = empty; conn = s }) here))

    framed-Reaches :
        (header : Option NbssHeader) (resp : List ℕ) (t : Conn)
        → Reaches s t
        → Reaches s (framed header resp t).1
    framed-Reaches none resp t r = r
    framed-Reaches (some hdr) resp t r =
        if_cases EventReaches (leb max_failed_logons t.session.failed_logons) (λ h. r) (λ h. r)

    finish-Reaches :
        (handled : Handled) (t : Conn) → Reaches s t → Reaches s (finish platform (handled, t)).1
    finish-Reaches (replied []) t r = r
    finish-Reaches (replied (b ∷ bs)) t r =
        framed-Reaches _ _ (drop_key t) (further r (key_dropped refl))
    finish-Reaches dropped t r = r
    finish-Reaches panicked t r = r
    finish-Reaches unfinished t r = r

    -- Whatever a message holds, the connection that has served it is one that the steps reach.
    pub serve-Reaches : Reaches s (serve platform ctx outside msg s).1
    unfolding serve
    serve-Reaches =
        if_cases EventReaches (length msg == 0) (λ h. here)
          (λ h.
            if_cases EventReaches (ltb max_inbound_message (length msg)) (λ h. here)
              (λ h.
                if_cases EventReaches (not (admitted platform s.session.signing_key msg))
                  (λ h. here) (λ h. finish-Reaches _ _ handle_message-Reaches)))
