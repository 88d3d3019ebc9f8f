-- ===== src/Wire/Der.antt =====
-- `der_tlv` of wire.rs: a DER tag-length-value with the short and the two-byte long length forms.
use smbanything.Base.{
  ℕ, suc, ◌+◌, ◌*◌, ◌/◌, ◌%◌, ◌≤◌, ◌<◌, ◌≡◌, Option, none, some, List, [], ◌∷◌, ◌++◌, arith, ltb,
  leb, length-append, ◌==◌, if◌then◌else◌, length, take, drop, append_assoc, take-append_length,
  drop-append_length,
}

-- `out.push(len as u8)` and `(len as u16).to_be_bytes()`
unfoldable pub der_length : ℕ → List ℕ
der_length len =
    if ltb len 0x80
    then len ∷ []
    else if leb len 0xFF
    then 0x81 ∷ len ∷ []
    else 0x82 ∷ (len % 65536 / 256) ∷ (len % 256) ∷ []

unfoldable pub der_tlv : ℕ → List ℕ → List ℕ
unfolding der_length
der_tlv tag body = tag ∷ (der_length (length body) ++ body)

-- A reader of the definite-length forms, as DER states them: the content's length and the rest.
abbrev read_length : List ℕ → Option (ℕ × List ℕ)
read_length [] = none
read_length (n ∷ []) = if ltb n 0x80 then some (n, []) else none
read_length (n ∷ a ∷ []) =
    if ltb n 0x80 then some (n, a ∷ []) else if n == 0x81 then some (a, []) else none
read_length (n ∷ a ∷ b ∷ rest) =
    if ltb n 0x80
    then some (n, a ∷ b ∷ rest)
    else if n == 0x81
    then some (a, b ∷ rest)
    else if n == 0x82
    then some (a * 256 + b, rest)
    else none

abbrev split_content : ℕ → ℕ × List ℕ → Option (ℕ × List ℕ × List ℕ)
split_content tag (n, rest) =
    if ltb (length rest) n then none else some (tag, take n rest, drop n rest)

pub read_tlv : List ℕ → Option (ℕ × List ℕ × List ℕ)
read_tlv [] = none
read_tlv (tag ∷ rest) = elim (read_length rest) [ none ↦ none | some p ↦ split_content tag p ]

read_length-der_length :
    (len : ℕ) (a : ℕ) (rest : List ℕ)
    → len ≤ 0xFFFF
    → read_length (der_length len ++ a ∷ rest) ≡ some (len, a ∷ rest)
unfolding der_length
read_length-der_length len a [] h = ground arith
read_length-der_length len a (b ∷ rest) h = ground arith

read_length-der_length_nil :
    (len : ℕ) → len < 0x80 → read_length (der_length len ++ []) ≡ some (len, [])
unfolding der_length
read_length-der_length_nil len h = ground arith

read_length-der_tlv :
    (body rest : List ℕ)
    → length body ≤ 0xFFFF
    → read_length (der_length (length body) ++ (body ++ rest)) ≡ some (length body, body ++ rest)
read_length-der_tlv [] [] h = read_length-der_length_nil 0 (omega arith)
read_length-der_tlv [] (a ∷ rest) h = read_length-der_length 0 a rest h
read_length-der_tlv (b ∷ body) rest h =
    read_length-der_length (suc (length body)) b (body ++ rest) h

split_content-append :
    (tag : ℕ) (body rest : List ℕ)
    → split_content tag (length body, body ++ rest) ≡ some (tag, body, rest)
split_content-append tag body rest =
    ground
      (arith, length-append body rest, take-append_length body rest, drop-append_length body rest)

-- A DER reader gets the tag and the body of up to 65535 bytes back, and what follows untouched.
pub read_tlv-der_tlv :
    (tag : ℕ) (body rest : List ℕ)
    → length body ≤ 0xFFFF
    → read_tlv (der_tlv tag body ++ rest) ≡ some (tag, body, rest)
unfolding read_tlv der_tlv
read_tlv-der_tlv tag body rest h =
    rw append_assoc
      (rw (read_length-der_tlv body rest h, read_tlv) (split_content-append tag body rest))
