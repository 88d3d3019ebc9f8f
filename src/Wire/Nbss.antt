-- ===== src/Wire/Nbss.antt =====
-- The NetBIOS session header of wire.rs: a zero byte and a 24-bit big-endian length.
use smbanything.Base.{
  ℕ, ◌+◌, ◌*◌, ◌/◌, ◌%◌, ◌^◌, ◌≤◌, ◌<◌, ◌≡◌, ◌≢◌, ap, ◌∙◌, ◌⊎◌, inl, inr, Bool-cases, not, Option,
  none, some, bit_or, ltb, ◌==◌, if◌then◌else◌, arith, bit_or-shifted,
}

abbrev pub max_nbss_payload : ℕ
max_nbss_payload = 0xFFFFFF

abbrev pub max_inbound_message : ℕ
max_inbound_message = 1024 * 1024

-- `[u8; NBSS_HEADER_LEN]`
abbrev pub NbssHeader : Type 0
NbssHeader = ℕ × ℕ × ℕ × ℕ

-- `(len >> 16) as u8`, `(len >> 8) as u8` and `len as u8`
unfoldable pub nbss_header : ℕ → Option NbssHeader
nbss_header len =
    if ltb max_nbss_payload len
    then none
    else some (0, (len / 65536) % 256, (len / 256) % 256, len % 256)

unfoldable pub nbss_len : NbssHeader → Option ℕ
nbss_len (kind, hi, mid, lo) =
    if not (kind == 0) then none else some (bit_or (bit_or (hi * 2 ^ 16) (mid * 2 ^ 8)) lo)

nbss_len-digits :
    (hi mid lo : ℕ)
    → mid < 256
    → lo < 256
    → bit_or (bit_or (hi * 2 ^ 16) (mid * 2 ^ 8)) lo ≡ hi * 65536 + mid * 256 + lo
nbss_len-digits hi mid lo hm hl =
    let inner : bit_or (hi * 2 ^ 16) (mid * 2 ^ 8) ≡ (hi * 256 + mid) * 2 ^ 8 =
      omega (arith, bit_or-shifted 16 hi (mid * 2 ^ 8) (omega arith)) in
    rw inner (omega (arith, bit_or-shifted 8 (hi * 256 + mid) lo (omega arith)))

-- A length that the 24-bit field holds is framed by a header that reads back as that length; a
-- longer payload has no header.
pub nbss_header_cases :
    (len : ℕ)
    → ((len ≤ max_nbss_payload)
        × ((h : NbssHeader) × (nbss_header len ≡ some h) × (nbss_len h ≡ some len)))
      ⊎ ((max_nbss_payload < len) × (nbss_header len ≡ none))
unfolding nbss_header nbss_len
nbss_header_cases len =
    let hi = (len / 65536) % 256 in
    let mid = (len / 256) % 256 in
    let lo = len % 256 in
    elim (Bool-cases (ltb max_nbss_payload len)) [
      | inl long ↦ inr (ground arith, ground arith)
      | inr fits ↦
          let small : len ≤ max_nbss_payload = ground arith in
          inl (
            small,
            (
              (0, hi, mid, lo),
              ground arith,
              ap some (nbss_len-digits hi mid lo (omega arith) (omega arith) ∙ omega arith),
            ),
          )
    ]

-- A header of four bytes is accepted exactly when its first byte is zero, and its length fits the 24-bit field.
pub nbss_len_cases :
    (kind hi mid lo : ℕ)
    → hi < 256
    → mid < 256
    → lo < 256
    → ((kind ≡ 0)
        × ((len : ℕ) × (nbss_len (kind, hi, mid, lo) ≡ some len) × (len ≤ max_nbss_payload)))
      ⊎ ((kind ≢ 0) × (nbss_len (kind, hi, mid, lo) ≡ none))
unfolding nbss_len
nbss_len_cases kind hi mid lo a b c = elim (Bool-cases (kind == 0)) [
  | inl z ↦ inl (
    ground arith,
    (hi * 65536 + mid * 256 + lo, ground (arith, nbss_len-digits hi mid lo b c), omega arith),
  )
  | inr k ↦ inr (ground arith, ground arith)
]
