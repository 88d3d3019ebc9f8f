-- ===== src/Server/Refusal.antt =====
-- How the response to a request that failed starts, and what the link to the next response leaves of it.
use smbanything.Base.{
  ℕ, ◌+◌, ◌-◌, ◌≡◌, refl, ap, ◌∙◌, Bool-cases, inl, inr, List, [], ◌∷◌, ◌++◌, some, err, arith, ltb,
  length, take, drop, replicate, le_bytes, append_assoc, length-append, take-append_eq,
}
use smbanything.Proto.Header.{Header, smb2_magic, header_len, next_command_offset}
use smbanything.Proto.Header.RoundTrip.{header_bytes, response_header}
use smbanything.Server.Message.{link, respond}
use smbanything.Server.State.{grant_credits}
use smbanything.Wire.Writer
use smbanything.Wire.Writer.{Writer, padding, buf-align_to}

-- How the response to a request starts: the magic, the header's length, the credit charge, the status
-- and the command.
abbrev pub response_start : Header → ℕ → List ℕ
response_start hdr status =
    smb2_magic
    ++ (le_bytes 2 header_len
        ++ (le_bytes 2 hdr.credit_charge ++ (le_bytes 4 status ++ le_bytes 2 hdr.command)))

-- The bytes are those written before and then a response with the status.
abbrev pub Answers : Header → ℕ → List ℕ → List ℕ → Type 0
Answers hdr status before bytes =
    (rest : List ℕ) × (bytes ≡ before ++ (response_start hdr status ++ rest))

-- The response up to where its NextCommand stands.
abbrev pub fixed_start : Header → ℕ → List ℕ
fixed_start hdr status =
    take 20
      (header_bytes (response_header hdr status (grant_credits hdr) hdr.session_id hdr.tree_id))

pub respond_err :
    (hdr : Header) (status : ℕ) (w : Writer)
    → (rest : List ℕ) × ((respond hdr (some (err status)) w).buf
        ≡ w.buf ++ (fixed_start hdr status ++ rest))
unfolding respond
respond_err hdr status w =
    let whole =
      header_bytes (response_header hdr status (grant_credits hdr) hdr.session_id hdr.tree_id) in
    (drop 20 whole ++ (9 ∷ 0 ∷ 0 ∷ 0 ∷ 0 ∷ 0 ∷ 0 ∷ 0 ∷ 0 ∷ []), simp append_assoc)

pub fixed_start-Answers :
    (hdr : Header) (status : ℕ) (before rest bytes : List ℕ)
    → bytes ≡ before ++ (fixed_start hdr status ++ rest)
    → Answers hdr status before bytes
fixed_start-Answers hdr status before rest bytes e =
    (drop 14 (fixed_start hdr status) ++ rest, e ∙ refl)

patched :
    (at v : ℕ) (w linked : Writer)
    → Writer.patch_u32 at v w ≡ some linked
    → linked.buf ≡ take at w.buf ++ (le_bytes 4 v ++ drop (at + 4) w.buf)
unfolding Writer.patch_u32
patched at v w linked h = elim (Bool-cases (ltb (length w.buf) (at + 4))) [
  | inl short ↦ absurd (ground (arith, h, short))
  | inr room ↦ ground (arith, h, room)
]

-- Padding the response and writing its NextCommand leave the start of it.
pub link-Answers :
    (hdr : Header) (status : ℕ) (before rest : List ℕ) (out linked : Writer)
    → out.buf ≡ before ++ (fixed_start hdr status ++ rest)
    → link (length before) out ≡ some linked
    → Answers hdr status before linked.buf
unfolding link
link-Answers hdr status before rest out linked e h =
    let at = length before + next_command_offset in
    let padded = Writer.align_to 8 out in
    let v = length padded.buf - length before in
    let zeros : List ℕ = replicate (padding (length out.buf)) 0 in
    let start = fixed_start hdr status in
    let behind = le_bytes 4 v ++ drop (at + 4) padded.buf in
    let written : padded.buf ≡ (before ++ start) ++ (rest ++ zeros) =
      buf-align_to out ∙ ap (λ (b : List ℕ). b ++ zeros) e ∙ simp append_assoc in
    let kept : take at padded.buf ≡ before ++ start =
      ap (take at) written
      ∙ take-append_eq at (before ++ start) (rest ++ zeros) (length-append before start) in
    fixed_start-Answers hdr status before behind linked.buf (
      patched at v padded linked h
      ∙ ap (λ (b : List ℕ). b ++ behind) kept
      ∙ append_assoc before start behind)
