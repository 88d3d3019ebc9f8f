-- ===== src/Wire/Utf16.antt =====
-- `utf16le` and `from_utf16le` of wire.rs. A Rust string is the list of its code points.
use smbanything.Base.{
  ℕ, ◌+◌, ◌*◌, ◌-◌, ◌/◌, ◌%◌, ◌≤◌, ◌<◌, ◌≡◌, refl, ap, ◌⊎◌, Option, none, some, List, [], ◌∷◌, ◌++◌,
  Bool, ◌&&◌, ◌∙◌, arith, ltb, leb, ◌==◌, if◌then◌else◌, length-append, not, length, All, le_bytes,
}

-- `str::encode_utf16`, of one `char`
abbrev pub encode_char : ℕ → List ℕ
encode_char c =
    if ltb c 0x10000
    then c ∷ []
    else (0xD800 + (c - 0x10000) / 1024) ∷ (0xDC00 + (c - 0x10000) % 1024) ∷ []

pub encode_utf16 : List ℕ → List ℕ
encode_utf16 [] = []
encode_utf16 (c ∷ s) = encode_char c ++ encode_utf16 s

abbrev replacement : ℕ
replacement = 0xFFFD

abbrev is_surrogate : ℕ → Bool
is_surrogate u = leb 0xD800 u && leb u 0xDFFF

abbrev is_high : ℕ → Bool
is_high u = leb 0xD800 u && leb u 0xDBFF

abbrev is_low : ℕ → Bool
is_low u = leb 0xDC00 u && leb u 0xDFFF

-- `String::from_utf16_lossy`: a surrogate that is no half of a pair is replaced.
unfoldable pub decode_lossy : List ℕ → List ℕ
decode_lossy [] = []
decode_lossy (u ∷ []) = (if is_surrogate u then replacement else u) ∷ []
decode_lossy (u ∷ v ∷ rest) =
    let alone = decode_lossy (v ∷ rest) in
    let pair = decode_lossy rest in
    if is_high u && is_low v
    then (0x10000 + (u - 0xD800) * 1024 + (v - 0xDC00)) ∷ pair
    else if is_surrogate u
    then replacement ∷ alone
    else u ∷ alone

pub flatten_units : List ℕ → List ℕ
flatten_units [] = []
flatten_units (u ∷ us) = le_bytes 2 u ++ flatten_units us

-- `as_chunks::<2>().0`: an odd last byte is left out
unfoldable pub chunk_units : List ℕ → List ℕ
chunk_units [] = []
chunk_units (lo ∷ []) = []
chunk_units (lo ∷ hi ∷ rest) = (lo + 256 * hi) ∷ chunk_units rest

unfoldable pub utf16le : List ℕ → List ℕ
unfolding encode_utf16 flatten_units
utf16le s = flatten_units (encode_utf16 s)

unfoldable pub from_utf16le : List ℕ → Option (List ℕ)
unfolding chunk_units decode_lossy
from_utf16le b = if not (length b % 2 == 0) then none else some (decode_lossy (chunk_units b))

-- What a `char` is: no surrogate, and at most U+10FFFF.
abbrev pub IsScalar : ℕ → Type 0
IsScalar c = (c < 0xD800) ⊎ ((0xE000 ≤ c) × (c < 0x110000))

decode_lossy-encode_char :
    (c : ℕ) (rest : List ℕ)
    → IsScalar c
    → decode_lossy (encode_char c ++ rest) ≡ c ∷ decode_lossy rest
unfolding decode_lossy
decode_lossy-encode_char c [] h = ground arith
decode_lossy-encode_char c (v ∷ rest) h = ground arith

pub decode_lossy-encode_utf16 : (s : List ℕ) → All IsScalar s → decode_lossy (encode_utf16 s) ≡ s
unfolding encode_utf16
decode_lossy-encode_utf16 [] h = unfold decode_lossy in refl
decode_lossy-encode_utf16 (c ∷ s) h =
    decode_lossy-encode_char c (encode_utf16 s) h.0
    ∙ ap (λ t. c ∷ t) (decode_lossy-encode_utf16 s h.1)

length-flatten_units : (us : List ℕ) → length (flatten_units us) ≡ 2 * length us
unfolding flatten_units
length-flatten_units [] = refl
length-flatten_units (u ∷ us) = omega (arith, length-flatten_units us)

chunk_units-flatten_units :
    (us : List ℕ) → All (λ u. u < 65536) us → chunk_units (flatten_units us) ≡ us
unfolding chunk_units flatten_units
chunk_units-flatten_units [] h = refl
chunk_units-flatten_units (u ∷ us) h =
    let e : u % 256 + 256 * (u / 256 % 256) ≡ u = omega arith in
    cc (e, chunk_units-flatten_units us h.1)

encode_utf16-units : (s : List ℕ) → All IsScalar s → All (λ u. u < 65536) (encode_utf16 s)
unfolding encode_utf16
encode_utf16-units [] h = tt
encode_utf16-units (c ∷ s) h = ground (arith, encode_utf16-units s h.1)

-- Every text of Unicode scalar values survives its UTF-16LE encoding, characters beyond the basic plane included.
pub from_utf16le-utf16le : (s : List ℕ) → All IsScalar s → from_utf16le (utf16le s) ≡ some s
unfolding from_utf16le utf16le
from_utf16le-utf16le s h =
    let even : length (flatten_units (encode_utf16 s)) % 2 ≡ 0 =
      omega (arith, length-flatten_units (encode_utf16 s)) in
    rw
      (
        even,
        chunk_units-flatten_units (encode_utf16 s) (encode_utf16-units s h),
        decode_lossy-encode_utf16 s h,
      )
      refl

length-encode_utf16 : (s : List ℕ) → length (encode_utf16 s) ≤ 2 * length s
unfolding encode_utf16
length-encode_utf16 [] = omega arith
length-encode_utf16 (c ∷ s) =
    let one : length (encode_char c) ≤ 2 = ground arith in
    omega (arith, length-append (encode_char c) (encode_utf16 s), one, length-encode_utf16 s)

pub length-utf16le : (s : List ℕ) → length (utf16le s) ≤ 4 * length s
unfolding utf16le
length-utf16le s = omega (arith, length-flatten_units (encode_utf16 s), length-encode_utf16 s)
