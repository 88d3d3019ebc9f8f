-- ===== src/Server/Answers.antt =====
-- `handle_message` of mod.rs always comes to an end: it replies or drops the connection.
use smbanything.Base.{
  ℕ, zero, suc, ◌+◌, ◌-◌, ◌≤◌, ◌<◌, ◌≡◌, refl, sym, ap, subst, ◌∙◌, ◌⊎◌, inl, inr, true, false,
  ◌&&◌, List, [], ◌∷◌, ◌++◌, Option, some, Result, ok, err, arith, ltb, leb, ◌==◌, if_cases,
  Bool-cases, Option-cases, length, drop, replicate, le_bytes, append_assoc, length-append,
}
use smbanything.Platform.{Platform}
use smbanything.Proto.Cmd
use smbanything.Proto.Header
use smbanything.Proto.Header.{Header, write_error_body, write_response, next_command_offset}
use smbanything.Proto.Header.RoundTrip.{header_bytes, response_header, buf-write_response}
use smbanything.Server.Execute.{execute}
use smbanything.Server.Message.{
  Handled, replied, dropped, Progress, Round, stop, again, follow, move_on, settle, run_request,
  one_round, message_loop, handle_message, start_request, outcome, request_of, bad_next, link,
  respond, next_chain, unwrap_or,
}
use smbanything.Server.State.{
  Ctx, Conn, Outside, Request, Chain, Reply, new_chain, max_compound_response, grant_credits,
}
use smbanything.Session.Negotiate.{is_smb1, is_smb1_negotiate}
use smbanything.Wire.Reader.{open_at_start}
use smbanything.Wire.Writer
use smbanything.Wire.Writer.{Writer, empty, padding, buf-align_to, patch_u32_lem}

length-write_response :
    (hdr : Header) (status credits session_id tree_id : ℕ) (w : Writer)
    → length (write_response hdr status credits session_id tree_id w).buf ≡ length w.buf + 64
length-write_response hdr status credits session_id tree_id w =
    ap length (buf-write_response hdr status credits session_id tree_id w)
    ∙ length-append w.buf (header_bytes (response_header hdr status credits session_id tree_id))

buf-write_error_body :
    (w : Writer)
    → (write_error_body w).buf ≡ w.buf ++ (le_bytes 2 9 ++ (0 ∷ 0 ∷ (le_bytes 4 0 ++ 0 ∷ [])))
unfolding write_error_body
buf-write_error_body w = simp append_assoc

length-write_error_body : (w : Writer) → length w.buf ≤ length (write_error_body w).buf
length-write_error_body w = omega (
  arith,
  ap length (buf-write_error_body w),
  length-append w.buf (le_bytes 2 9 ++ (0 ∷ 0 ∷ (le_bytes 4 0 ++ 0 ∷ []))),
)

-- A response has a header, whatever it says.
length-respond :
    (hdr : Header) (r : Result Reply) (out : Writer)
    → length out.buf + 64 ≤ length (respond hdr (some r) out).buf
unfolding respond Writer.bytes
length-respond hdr (ok reply) out = omega (
  arith,
  length-write_response hdr reply.status (grant_credits hdr)
      (unwrap_or reply.session_id hdr.session_id) (unwrap_or reply.tree_id hdr.tree_id) out,
  length-append
      (write_response hdr reply.status (grant_credits hdr)
        (unwrap_or reply.session_id hdr.session_id) (unwrap_or reply.tree_id hdr.tree_id) out).buf
      reply.body,
)
length-respond hdr (err status) out =
    let w = write_response hdr status (grant_credits hdr) hdr.session_id hdr.tree_id out in
    omega (
      arith,
      length-write_response hdr status (grant_credits hdr) hdr.session_id hdr.tree_id out,
      length-write_error_body w,
    )

-- The patch of a response lies inside it.
link-some :
    (start : ℕ) (out : Writer)
    → start + 64 ≤ length out.buf
    → (linked : Writer) × (link start out ≡ some linked)
unfolding link
link-some start out h =
    let padded = Writer.align_to 8 out in
    let n : length out.buf ≤ length padded.buf = omega (
      arith,
      ap length (buf-align_to out),
      length-append out.buf (replicate {A = ℕ} (padding (length out.buf)) 0),
    ) in
    let patched =
      patch_u32_lem (start + 20) (length padded.buf - start) padded (omega (arith, h, n)) in
    (patched.0, patched.1)

module _ (platform : Platform) (ctx : Ctx) (outside : ℕ → Outside) (msg : List ℕ) where
  -- What a message comes to in the end.
  abbrev pub Finished : Handled → Type 0
  Finished handled = ((out : List ℕ) × (handled ≡ replied out)) ⊎ (handled ≡ dropped)

  -- A round ends the message, or leaves an offset behind it that lies inside the message.
  abbrev Advances : ℕ → Round → Type 0
  Advances offset (stop handled s) = Finished handled
  Advances offset (again p) = (offset < p.offset) × (p.offset < length msg)

  -- Only a request that is alone goes without an answer.
  abbrev Answers : Request → Option (Result Reply) × Conn → Type 0
  Answers req x = (req.is_only ≡ true) ⊎ ((r : Result Reply) × (x.0 ≡ some r))

  execute-Answers :
      (o : Outside) (req : Request) (s : Conn) → Answers req (execute platform ctx o req s)
  unfolding execute
  execute-Answers o req s =
      if_cases (Answers req) (req.hdr.command == Cmd.cancel)
        (λ c. if_cases (Answers req) req.is_only (λ h. inl h) (λ h. inr (_, refl)))
        (λ c. inr (_, refl))

  outcome-Answers :
      (o : Outside) (req : Request) (chain : Chain) (s : Conn)
      → Answers req (outcome platform ctx o req chain s)
  unfolding outcome
  outcome-Answers o req chain s = elim (Option-cases chain.create_error) [
    | inl a ↦ rw (a, outcome) (execute-Answers o req s)
    | inr (status, a) ↦
        rw (a, outcome)
          (if_cases (Answers req) req.related (λ h. inr (err status, refl))
            (λ h. execute-Answers o req s))
  ]

  move_on-Advances :
      (hdr : Header) (chain : Chain) (linked : Writer) (offset : ℕ) (s : Conn)
      → 64 ≤ hdr.next_command
      → Advances offset (move_on platform ctx outside msg hdr chain (some linked) offset s)
  unfolding move_on
  move_on-Advances hdr chain linked offset s far =
      if_cases (Advances offset) (leb (length msg) (offset + hdr.next_command))
        (λ h. inl (linked.buf, refl)) (λ h. (omega (arith, far), ground arith))

  settle-Advances :
      (hdr : Header) (req : Request) (p : Progress) (answer : Option (Result Reply)) (s : Conn)
      → (hdr.next_command ≡ 0)
        ⊎ ((64 ≤ hdr.next_command) × ((r : Result Reply) × (answer ≡ some r)))
      → Advances p.offset (settle platform ctx outside msg hdr req p answer s)
  unfolding settle
  settle-Advances hdr req p answer s (inl last) = rw (settle, last) (inl (_, refl))
  settle-Advances hdr req p answer s (inr (far, (r, e))) =
      let out = respond hdr answer p.out in
      let long : length p.out.buf + 64 ≤ length out.buf =
        subst
          (λ (a : Option (Result Reply)). length p.out.buf + 64 ≤ length (respond hdr a p.out).buf)
          (sym e) (length-respond hdr r p.out) in
      let linked = link-some (length p.out.buf) out long in
      let chain = next_chain req answer p.chain in
      if_cases (Advances p.offset) (hdr.next_command == 0) (λ h. inl (out.buf, refl))
        (λ h.
          if_cases {x = stop dropped s}
            {y = move_on platform ctx outside msg hdr chain (link (length p.out.buf) out) p.offset
              s}
            (Advances p.offset) (ltb max_compound_response (length out.buf)) (λ h. inr refl)
            (λ h. rw linked.1 (move_on-Advances hdr chain linked.0 p.offset s far)))

  run_request-Advances :
      (hdr : Header) (chunk : List ℕ) (p : Progress)
      → bad_next hdr chunk ≡ false
      → Advances p.offset (run_request platform ctx outside msg hdr chunk p)
  unfolding run_request request_of
  run_request-Advances hdr chunk p fine =
      let req = request_of hdr chunk p.chain (p.offset == 0) in
      let ran = outcome platform ctx (outside p.offset) req p.chain (start_request hdr p.conn) in
      settle-Advances hdr req p ran.0 ran.1
        (elim (outcome-Answers (outside p.offset) req p.chain (start_request hdr p.conn)) [
          | inl alone ↦ inl (ground arith)
          | inr answered ↦ elim (Bool-cases (hdr.next_command == 0)) [
            | inl last ↦ inl (ground arith)
            | inr far ↦ inr (ground (arith, fine), answered)
          ]
        ])

  one_round-Advances : (p : Progress) → Advances p.offset (one_round platform ctx outside msg p)
  unfolding one_round
  one_round-Advances p = elim (Option-cases (Header.parse (open_at_start (drop p.offset msg)))) [
    | inl a ↦ rw (a, one_round) (inr refl)
    | inr ((hdr, rest), a) ↦
        rw (a, one_round)
          (if_cases (Advances p.offset) (bad_next hdr (drop p.offset msg)) (λ h. inr refl)
            (λ fine.
              if_cases (Advances p.offset)
                (hdr.command == Cmd.negotiate && p.conn.session.negotiated) (λ h. inr refl)
                (λ h. run_request-Advances hdr (drop p.offset msg) p fine)))
  ]

  follow-Finished :
      (next : Progress → Handled × Conn) (round : Round) (offset : ℕ)
      → ((q : Progress) → offset < q.offset → q.offset < length msg → Finished (next q).0)
      → Advances offset round
      → Finished (follow next round).0
  follow-Finished next (stop handled s) offset on r = r
  follow-Finished next (again q) offset on r = on q r.0 r.1

  message_loop-Finished :
      (fuel : ℕ) (p : Progress)
      → length msg < p.offset + fuel
      → p.offset ≤ length msg
      → Finished (message_loop platform ctx outside msg fuel p).0
  unfolding message_loop
  message_loop-Finished zero p enough inside = absurd (omega (arith, enough, inside))
  message_loop-Finished (suc fuel) p enough inside =
      follow-Finished (message_loop platform ctx outside msg fuel)
        (one_round platform ctx outside msg p) p.offset
        (λ q later here.
          message_loop-Finished fuel q (omega (arith, enough, later)) (omega (arith, here)))
        (one_round-Advances p)

  -- Every message, whatever its bytes and the state, is replied to or has its connection dropped: the
  -- loop over its requests ends within its fuel, and no patch of a response falls outside the output.
  pub handle_message-Finished : (s : Conn) → Finished (handle_message platform ctx outside msg s).0
  unfolding handle_message
  handle_message-Finished s =
      if_cases (λ (x : Handled × Conn). Finished x.0) (is_smb1_negotiate msg) (λ h. inl (_, refl))
        (λ h.
          if_cases (λ (x : Handled × Conn). Finished x.0) (is_smb1 msg) (λ h. inr refl)
            (λ h.
              message_loop-Finished (length msg + 1)
                (record { offset = 0; chain = new_chain; out = empty; conn = s }) (omega arith)
                (omega arith)))
