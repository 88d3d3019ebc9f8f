-- ===== src/Server/Chains.antt =====
-- A chain of related requests behind a CREATE that failed: `handle_message` of mod.rs.
use smbanything.Server.Refusal.{
  Answers, fixed_start, respond_err, fixed_start-Answers, link-Answers,
}
use smbanything.Base.{
  ℕ, ◌+◌, ◌≡◌, refl, sym, ap, subst, ◌∙◌, true, inl, inr, ◌&&◌, List, ◌++◌, Option, none, some,
  Result, err, ltb, leb, ◌==◌, if_cases, Option-cases, length, drop,
}
use smbanything.Platform.{Platform}
use smbanything.Proto.Cmd
use smbanything.Proto.Header
use smbanything.Proto.Header.{
  Header, smb2_magic, header_len, next_command_offset, write_response, write_error_body,
}
use smbanything.Server.Execute.{execute}
use smbanything.Server.Message.{
  dropped, replied, Progress, Round, stop, again, move_on, settle, run_request, one_round,
  start_request, outcome, request_of, is_related, bad_next, link, respond, next_chain, panicked,
  unfinished,
}
use smbanything.Server.State.{Ctx, Conn, Outside, Request, Chain, Reply, max_compound_response}
use smbanything.Wire.Reader.{Reader, open_at_start}
use smbanything.Wire.Writer.{Writer}

module _ (platform : Platform) (ctx : Ctx) (outside : ℕ → Outside) (msg : List ℕ) (status : ℕ) where
  -- The connection is `s`, what was answered to the request is the status, and what comes next is still
  -- behind the failure. A message may also be dropped, and then nothing is answered.
  abbrev pub Refuses : Conn → Header → List ℕ → Round → Type 0
  Refuses s hdr before (stop (replied bytes) t) = (t ≡ s) × Answers hdr status before bytes
  Refuses s hdr before (stop dropped t) = t ≡ s
  Refuses s hdr before (stop panicked t) = t ≡ s
  Refuses s hdr before (stop unfinished t) = t ≡ s
  Refuses s hdr before (again p) =
      (p.conn ≡ s) × (p.chain.create_error ≡ some status) × Answers hdr status before p.out.buf

  move_on-Refuses :
      (s : Conn) (hdr : Header) (before rest : List ℕ) (chain : Chain) (out : Writer) (offset : ℕ)
      → chain.create_error ≡ some status
      → out.buf ≡ before ++ (fixed_start hdr status ++ rest)
      → Refuses s hdr before
          (move_on platform ctx outside msg hdr chain (link (length before) out) offset s)
  unfolding move_on
  move_on-Refuses s hdr before rest chain out offset failed e =
      elim (Option-cases (link (length before) out)) [
        | inl a ↦ rw (a, move_on) refl
        | inr (linked, a) ↦
            let answers = link-Answers hdr status before rest out linked e a in
            rw (a, move_on)
              (if_cases (Refuses s hdr before) (leb (length msg) (offset + hdr.next_command))
                (λ h. (refl, answers)) (λ h. (refl, failed, answers)))
      ]

  -- Once a request has failed with the status, behind which the rest of the chain stands.
  settle-Refuses :
      (hdr : Header) (req : Request) (p : Progress) (s : Conn)
      → (next_chain req (some (err status)) p.chain).create_error ≡ some status
      → Refuses s hdr p.out.buf (settle platform ctx outside msg hdr req p (some (err status)) s)
  unfolding settle
  settle-Refuses hdr req p s failed =
      let (rest, e) = respond_err hdr status p.out in
      let out = respond hdr (some (err status)) p.out in
      let chain = next_chain req (some (err status)) p.chain in
      if_cases (Refuses s hdr p.out.buf) (hdr.next_command == 0)
        (λ h. (refl, fixed_start-Answers hdr status p.out.buf rest out.buf e))
        (λ h.
          if_cases {x = stop dropped s}
            {y = move_on platform ctx outside msg hdr chain (link (length p.out.buf) out) p.offset
              s}
            (Refuses s hdr p.out.buf) (ltb max_compound_response (length out.buf)) (λ h. refl)
            (λ h. move_on-Refuses s hdr p.out.buf rest chain out p.offset failed e))

  poisoned_chain :
      (req : Request) (chain : Chain)
      → chain.create_error ≡ some status
      → (next_chain req (some (err status)) chain).create_error ≡ some status
  unfolding next_chain
  poisoned_chain req chain failed =
      if_cases (λ (e : Option ℕ). e ≡ some status) (req.hdr.command == Cmd.create)
        (λ h. rw failed refl) (λ h. failed)

  poisoning_chain :
      (req : Request) (chain : Chain)
      → chain.create_error ≡ none
      → req.hdr.command ≡ Cmd.create
      → (next_chain req (some (err status)) chain).create_error ≡ some status
  unfolding next_chain
  poisoning_chain req chain clean create = rw (next_chain, create, clean) refl

  poisoned_outcome :
      (o : Outside) (req : Request) (chain : Chain) (t : Conn)
      → chain.create_error ≡ some status
      → req.related ≡ true
      → outcome platform ctx o req chain t ≡ (some (err status), t)
  unfolding outcome
  poisoned_outcome o req chain t failed related = rw (outcome, failed, related) refl

  clean_outcome :
      (o : Outside) (req : Request) (chain : Chain) (t : Conn)
      → chain.create_error ≡ none
      → outcome platform ctx o req chain t ≡ execute platform ctx o req t
  unfolding outcome
  clean_outcome o req chain t clean = rw (outcome, clean) refl

  -- A request that is related to a failed CREATE is answered with its status and not carried out.
  run_request-Refuses :
      (hdr : Header) (chunk : List ℕ) (p : Progress)
      → p.chain.create_error ≡ some status
      → is_related hdr ≡ true
      → Refuses p.conn hdr p.out.buf (run_request platform ctx outside msg hdr chunk p)
  unfolding run_request
  run_request-Refuses hdr chunk p failed related =
      let req = request_of hdr chunk p.chain (p.offset == 0) in
      let started : start_request hdr p.conn ≡ p.conn = rw related refl in
      let same =
        poisoned_outcome (outside p.offset) req p.chain (start_request hdr p.conn) failed related
        ∙ ap (λ (t : Conn). (some (err status), t)) started in
      subst
        (λ (x : Option (Result Reply) × Conn).
          Refuses p.conn hdr p.out.buf (settle platform ctx outside msg hdr req p x.0 x.1))
        (sym same) (settle-Refuses hdr req p p.conn (poisoned_chain req p.chain failed))

  one_round-Refuses :
      (hdr : Header) (rest : Reader) (p : Progress)
      → p.chain.create_error ≡ some status
      → Header.parse (open_at_start (drop p.offset msg)) ≡ some (hdr, rest)
      → is_related hdr ≡ true
      → Refuses p.conn hdr p.out.buf (one_round platform ctx outside msg p)
  unfolding one_round
  one_round-Refuses hdr rest p failed parsed related =
      rw (one_round, parsed)
        (if_cases (Refuses p.conn hdr p.out.buf) (bad_next hdr (drop p.offset msg)) (λ h. refl)
          (λ h.
            if_cases (Refuses p.conn hdr p.out.buf)
              (hdr.command == Cmd.negotiate && p.conn.session.negotiated) (λ h. refl)
              (λ h. run_request-Refuses hdr (drop p.offset msg) p failed related)))

  abbrev Poisons : Conn → Round → Type 0
  Poisons s (stop handled t) = Unit
  Poisons s (again q) = (q.conn ≡ s) × (q.chain.create_error ≡ some status)

  Refuses-Poisons :
      (s : Conn) (hdr : Header) (before : List ℕ) (r : Round) → Refuses s hdr before r → Poisons s r
  Refuses-Poisons s hdr before (stop handled t) h = tt
  Refuses-Poisons s hdr before (again q) h = (h.0, h.1)

  -- A round that carries out a CREATE, which fails with the status and leaves the connection as given.
  abbrev pub FailsToCreate : Progress → Conn → Type 0
  FailsToCreate p s =
      (hdr : Header) × (rest : Reader) × (p.chain.create_error ≡ none)
      × (Header.parse (open_at_start (drop p.offset msg)) ≡ some (hdr, rest))
      × (hdr.command ≡ Cmd.create)
      × (execute platform ctx (outside p.offset)
            (request_of hdr (drop p.offset msg) p.chain (p.offset == 0)) (start_request hdr p.conn)
          ≡ (some (err status), s))

  one_round-Poisons :
      (p : Progress) (s : Conn)
      → FailsToCreate p s
      → Poisons s (one_round platform ctx outside msg p)
  unfolding one_round run_request
  one_round-Poisons p s (hdr, rest, clean, parsed, create, failed) =
      let chunk = drop p.offset msg in
      let req = request_of hdr chunk p.chain (p.offset == 0) in
      let same =
        clean_outcome (outside p.offset) req p.chain (start_request hdr p.conn) clean ∙ failed in
      rw (one_round, parsed)
        (if_cases (Poisons s) (bad_next hdr chunk) (λ h. tt)
          (λ h.
            if_cases (Poisons s) (hdr.command == Cmd.negotiate && p.conn.session.negotiated)
              (λ h. tt)
              (λ h.
                subst
                  (λ (x : Option (Result Reply) × Conn).
                    Poisons s (settle platform ctx outside msg hdr req p x.0 x.1))
                  (sym same)
                  (Refuses-Poisons s hdr p.out.buf _
                    (settle-Refuses hdr req p s (poisoning_chain req p.chain clean create))))))

  -- The request at the offset, which is related to the one before it.
  abbrev pub IsRelatedAt : Progress → Header → Type 0
  IsRelatedAt p hdr =
      (rest : Reader) × (Header.parse (open_at_start (drop p.offset msg)) ≡ some (hdr, rest))
      × (is_related hdr ≡ true)

  -- Any number of rounds over requests that are related.
  pub data Follows (p : Progress) : Progress → Type 0 where
    here : Follows p p
    next :
        {q r : Progress} (hdr : Header)
        → Follows p q
        → IsRelatedAt q hdr
        → one_round platform ctx outside msg q ≡ again r
        → Follows p r

  Follows-Poisons :
      {p q : Progress} (s : Conn) → Poisons s (again p) → Follows p q → Poisons s (again q)
  Follows-Poisons s h here = h
  Follows-Poisons s h (next {q} hdr before (rest, parsed, related) went) =
      let (same, failed) = Follows-Poisons s h before in
      let more =
        Refuses-Poisons q.conn hdr q.out.buf _
          (one_round-Refuses hdr rest q failed parsed related) in
      let (same', failed') = subst (Poisons q.conn) went more in (same' ∙ same, failed')

  -- When a CREATE of a message is carried out and fails, then no related request behind it is carried
  -- out, whatever it asks for and however many related requests stand between: its round leaves the
  -- connection as the CREATE left it, and its response tells the status of the CREATE and stands behind
  -- the responses before it, unless the message is dropped or panics; the failure stays for the requests
  -- behind it.
  pub one_round-create_error :
      (p q r : Progress) (s : Conn) (hdr : Header)
      → FailsToCreate p s
      → one_round platform ctx outside msg p ≡ again q
      → Follows q r
      → IsRelatedAt r hdr
      → Refuses s hdr r.out.buf (one_round platform ctx outside msg r)
  one_round-create_error p q r s hdr fails went behind (rest, parsed, related) =
      let first = subst (Poisons s) went (one_round-Poisons p s fails) in
      let (same, failed) = Follows-Poisons s first behind in
      subst (λ (t : Conn). Refuses t hdr r.out.buf (one_round platform ctx outside msg r)) same
        (one_round-Refuses hdr rest r failed parsed related)
