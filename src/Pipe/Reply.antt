-- ===== src/Pipe/Reply.antt =====
-- Every reply of `dispatch` of srvsvc.rs is one complete PDU.
use smbanything.Base.{
  ℕ, ◌+◌, ◌^◌, ◌<◌, ◌≡◌, refl, sym, ap, subst, ◌∙◌, List, ◌∷◌, ◌++◌, some, arith, length, le_bytes,
  append_assoc, le_value-le_bytes,
}
use smbanything.Pipe.Constants.{ptype_fault, ptype_response}
use smbanything.Pipe.Rpc.{parse_header, pdu, write_pdu_header, fault, response}
use smbanything.Wire.Writer
use smbanything.Wire.Writer.{empty, ◌▸◌}

abbrev head_bytes : ℕ → ℕ → ℕ → List ℕ → List ℕ
head_bytes ptype frag_len call_id rest =
    5
    ∷ 0
    ∷ ptype
    ∷ 3
    ∷ 0x10
    ∷ 0
    ∷ 0
    ∷ 0
    ∷ (le_bytes 2 frag_len ++ (le_bytes 2 0 ++ (le_bytes 4 call_id ++ rest)))

buf-pdu :
    (ptype call_id : ℕ) (body : List ℕ)
    → pdu ptype call_id body ≡ head_bytes ptype (16 + length body) call_id body
unfolding write_pdu_header Writer.bytes
buf-pdu ptype call_id body = simp append_assoc

parse_header-head_bytes :
    (ptype call_id : ℕ) (body : List ℕ)
    → call_id < 2 ^ 32
    → 16 + length body < 2 ^ 16
    → parse_header (head_bytes ptype (16 + length body) call_id body)
      ≡ some (record { ptype = ptype; call_id = call_id })
unfolding parse_header
parse_header-head_bytes ptype call_id body id fits =
    let n = le_value-le_bytes 2 (16 + length body) fits in
    let c = le_value-le_bytes 4 call_id id in
    let p : ptype + 0 ≡ ptype = omega arith in ground (arith, n, c, p, fits)

-- One complete PDU with this call id.
abbrev pub IsPdu : ℕ → List ℕ → Type 0
IsPdu call_id buf =
    (ptype : ℕ) × (parse_header buf ≡ some (record { ptype = ptype; call_id = call_id }))

head_bytes-IsPdu :
    (ptype frag_len call_id : ℕ) (rest : List ℕ)
    → frag_len ≡ 16 + length rest
    → call_id < 2 ^ 32
    → 16 + length rest < 2 ^ 16
    → IsPdu call_id (head_bytes ptype frag_len call_id rest)
head_bytes-IsPdu ptype frag_len call_id rest e id fits = (
  ptype,
  ap (λ (n : ℕ). parse_header (head_bytes ptype n call_id rest)) e
      ∙ parse_header-head_bytes ptype call_id rest id fits,
)

pub pdu-IsPdu :
    (ptype call_id : ℕ) (body : List ℕ)
    → call_id < 2 ^ 32
    → 16 + length body < 2 ^ 16
    → IsPdu call_id (pdu ptype call_id body)
pdu-IsPdu ptype call_id body id fits =
    subst (IsPdu call_id) (sym (buf-pdu ptype call_id body))
      (head_bytes-IsPdu ptype (16 + length body) call_id body refl id fits)

buf-fault :
    (call_id context_id code : ℕ)
    → fault call_id context_id code
      ≡ head_bytes ptype_fault 32 call_id
          (le_bytes 4 0 ++ (le_bytes 2 context_id ++ (0 ∷ 0 ∷ (le_bytes 4 code ++ le_bytes 4 0))))
unfolding fault write_pdu_header Writer.bytes
buf-fault call_id context_id code = simp append_assoc

pub fault-IsPdu :
    (call_id context_id code : ℕ) → call_id < 2 ^ 32 → IsPdu call_id (fault call_id context_id code)
fault-IsPdu call_id context_id code id =
    subst (IsPdu call_id) (sym (buf-fault call_id context_id code))
      (head_bytes-IsPdu ptype_fault 32 call_id _ refl id (omega arith))

buf-response :
    (call_id context_id : ℕ) (stub : List ℕ)
    → response call_id context_id stub
      ≡ head_bytes ptype_response
          (24 + length stub)
          call_id
          (le_bytes 4 (length stub) ++ (le_bytes 2 context_id ++ (0 ∷ 0 ∷ stub)))
unfolding response write_pdu_header Writer.bytes
buf-response call_id context_id stub = simp append_assoc

pub response-IsPdu :
    (call_id context_id : ℕ) (stub : List ℕ)
    → call_id < 2 ^ 32
    → 24 + length stub < 2 ^ 16
    → IsPdu call_id (response call_id context_id stub)
response-IsPdu call_id context_id stub id fits =
    subst (IsPdu call_id) (sym (buf-response call_id context_id stub)) (
      head_bytes-IsPdu ptype_response (24 + length stub) call_id _ (omega arith) id
        (omega (arith, fits)))
