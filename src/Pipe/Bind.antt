-- ===== src/Pipe/Bind.antt =====
-- The answer to a BIND of srvsvc.rs: one result for each context, in its order.
use smbanything.Base.{
  ℕ, zero, suc, ◌+◌, ◌*◌, ◌%◌, ◌≤◌, ◌<◌, ◌≡◌, refl, sym, ap, ◌∙◌, Bool, true, false, List, [], ◌∷◌,
  ◌++◌, arith, ltb, ◌==◌, if◌then◌else◌, if_cases, length, take, drop, replicate, le_bytes,
  le_value, append_assoc, append-nil, length-append, AreBytes, All-drop,
}
use smbanything.Pipe.Constants.{
  acceptance, provider_rejection, negotiate_ack, reason_transfer_syntaxes_not_supported, ndr_syntax,
  ndr_syntax_version, max_frag, sec_addr,
}
use smbanything.Pipe.Rpc.{
  Presented, ndr32, feature_request, unsupported, write_results, bind_body, contexts_from,
  presented_contexts, default_context, byte_at,
}
use smbanything.Wire.Writer
use smbanything.Wire.Writer.{Writer, empty, ◌▸◌}

-- What a result says, of a context that may still be accepted.
abbrev result_code : Bool → Presented → ℕ
result_code accepted feature_request = negotiate_ack
result_code accepted unsupported = provider_rejection
result_code false ndr32 = acceptance
result_code true ndr32 = provider_rejection

abbrev after_result : Bool → Presented → Bool
after_result accepted feature_request = accepted
after_result accepted unsupported = accepted
after_result accepted ndr32 = true

-- The codes that C706 asks for: the first context that offers NDR32 is accepted, the others are not.
pub result_codes : Bool → List Presented → List ℕ
result_codes accepted [] = []
result_codes accepted (c ∷ cs) = result_code accepted c ∷ result_codes (after_result accepted c) cs

-- The 24 bytes of a result with its code first.
abbrev result_bytes : ℕ → List ℕ
result_bytes code =
    if code == acceptance
    then le_bytes 2 code ++ (le_bytes 2 0 ++ (ndr_syntax ++ le_bytes 4 ndr_syntax_version))
    else if code == negotiate_ack
    then le_bytes 2 code ++ (le_bytes 2 0 ++ (replicate 16 0 ++ le_bytes 4 0))
    else le_bytes 2 code
      ++ (le_bytes 2 reason_transfer_syntaxes_not_supported ++ (replicate 16 0 ++ le_bytes 4 0))

abbrev pub flat : List ℕ → List ℕ
flat [] = []
flat (code ∷ codes) = result_bytes code ++ flat codes

pub buf-write_results :
    (accepted : Bool) (cs : List Presented) (w : Writer)
    → (write_results accepted cs w).buf ≡ w.buf ++ flat (result_codes accepted cs)
unfolding write_results result_codes Writer.bytes Writer.u32 Writer.u16 Writer.zeros
buf-write_results accepted [] w = sym (append-nil w.buf)
buf-write_results accepted (feature_request ∷ cs) w =
    simp (append_assoc, buf-write_results accepted cs)
buf-write_results accepted (unsupported ∷ cs) w = simp (append_assoc, buf-write_results accepted cs)
buf-write_results false (ndr32 ∷ cs) w = simp (append_assoc, buf-write_results true cs)
buf-write_results true (ndr32 ∷ cs) w = simp (append_assoc, buf-write_results true cs)

length-result_bytes : (code : ℕ) → length (result_bytes code) ≡ 24
length-result_bytes code =
    if_cases (λ (bs : List ℕ). length bs ≡ 24) (code == acceptance) (λ h. refl)
      (λ h.
        if_cases (λ (bs : List ℕ). length bs ≡ 24) (code == negotiate_ack) (λ h. refl) (λ h. refl))

length-flat : (codes : List ℕ) → length (flat codes) ≡ 24 * length codes
length-flat [] = refl
length-flat (code ∷ codes) = omega (
  arith,
  length-append (result_bytes code) (flat codes),
  length-result_bytes code,
  length-flat codes,
)

length-result_codes :
    (accepted : Bool) (cs : List Presented) → length (result_codes accepted cs) ≡ length cs
unfolding result_codes
length-result_codes accepted [] = refl
length-result_codes accepted (c ∷ cs) = ap suc (length-result_codes (after_result accepted c) cs)

-- The fields that stand before the results, the padding among them.
abbrev pub preamble : List ℕ
preamble =
    le_bytes 2 max_frag
    ++ (le_bytes 2 max_frag ++ (le_bytes 4 0x1063 ++ (le_bytes 2 13 ++ (sec_addr ++ 0 ∷ []))))

pub buf-bind_body :
    (cs : List Presented)
    → bind_body cs ≡ preamble ++ ((length cs % 256) ∷ 0 ∷ 0 ∷ 0 ∷ flat (result_codes false cs))
unfolding bind_body Writer.bytes Writer.u16 Writer.u32 Writer.u8 Writer.zeros Writer.align_to
    Writer.align_loop
buf-bind_body cs = buf-write_results false cs _ ∙ refl

length-contexts_from : (count at : ℕ) (body : List ℕ) → length (contexts_from count at body) ≤ count
unfolding contexts_from
length-contexts_from zero at body = omega arith
length-contexts_from (suc count) at body =
    if_cases (λ (cs : List Presented). length cs ≤ suc count) (ltb (at + 2) (length body))
      (λ h.
        omega (arith, length-contexts_from count (at + 4 + 20 + byte_at (at + 2) body * 20) body))
      (λ h. omega arith)

first_byte : (bs : List ℕ) → AreBytes bs → le_value (take 1 bs) < 256
first_byte [] h = omega arith
first_byte (b ∷ bs) h = omega (arith, h.0)

length-presented_contexts :
    (request : List ℕ) → AreBytes request → length (presented_contexts request) ≤ 255
unfolding presented_contexts
length-presented_contexts request bs =
    let body = drop 16 request in
    let few : byte_at 8 body < 256 =
      first_byte (drop 8 body) (All-drop _ 8 body (All-drop _ 16 request bs)) in
    if_cases (λ (cs : List Presented). length cs ≤ 255) (ltb (length request) 16) (λ h. omega arith)
      (λ h.
        if_cases (λ (cs : List Presented). length cs ≤ 255) (ltb 8 (length body))
          (λ h. omega (arith, few, length-contexts_from (byte_at 8 body) 12 body))
          (λ h. omega arith))

length-default_context : (cs : List Presented) → length cs ≤ 255 → length (default_context cs) ≤ 255
length-default_context [] h = omega arith
length-default_context (c ∷ cs) h = h

pub bind_body_fits :
    (request : List ℕ)
    → AreBytes request
    → length (bind_body (default_context (presented_contexts request))) < 6200
bind_body_fits request bs =
    let cs = default_context (presented_contexts request) in
    omega (
      arith,
      ap length (buf-bind_body cs),
      length-flat (result_codes false cs),
      length-result_codes false cs,
      length-default_context (presented_contexts request) (length-presented_contexts request bs),
    )
