-- ===== src/Base/Text.antt =====
-- What the program uses of `str`: splitting, joining, trimming, membership, ASCII case and UTF-8.
-- A Rust string is the list of its code points.
use Prim.Native.Char.{code}
use Prim.Native.String.{String}
use smbanything.Base.Tests.{ltb, leb, ◌==◌, if◌then◌else◌, same}
use smbanything.Base.Lists.{All}
use Prim.Native.Nat.{ℕ, ◌+◌, ◌/◌, ◌%◌}
use mathlib.Core.Path.{◌≡◌, refl}
use mathlib.Core.Logic.{◌≢◌}
use mathlib.Core.Bool.{Bool, true, false, ◌&&◌, ◌||◌}
use mathlib.Core.List.{List, [], ◌∷◌, ◌++◌, map}
use native.Mathlib.Omega.{arith}

-- The code points of a literal.
abbrev pub codes : String → List ℕ
codes String.[] = []
codes (String.◌∷◌ c s) = code c ∷ codes s

abbrev pub is_empty {ℓ} : {A : Type ℓ} → List A → Bool
is_empty [] = true
is_empty (x ∷ xs) = false

abbrev pub elem : ℕ → List ℕ → Bool
elem c [] = false
elem c (x ∷ xs) = c == x || elem c xs

-- `str::contains` of a set of characters
unfoldable pub contains_any : List ℕ → List ℕ → Bool
contains_any bad [] = false
contains_any bad (c ∷ s) = elem c bad || contains_any bad s

abbrev pub cons_head : ℕ → List (List ℕ) → List (List ℕ)
cons_head c [] = (c ∷ []) ∷ []
cons_head c (p ∷ ps) = (c ∷ p) ∷ ps

-- `str::split` at a character
unfoldable pub split : ℕ → List ℕ → List (List ℕ)
split sep [] = [] ∷ []
split sep (c ∷ s) = let parts = split sep s in if c == sep then [] ∷ parts else cons_head c parts

-- `[String]::join` with a one-character separator
unfoldable pub join : ℕ → List (List ℕ) → List ℕ
join sep [] = []
join sep (p ∷ []) = p
join sep (p ∷ q ∷ ps) = p ++ (sep ∷ join sep (q ∷ ps))

unfoldable pub trim_start : ℕ → List ℕ → List ℕ
trim_start sep [] = []
trim_start sep (c ∷ s) = let rest = trim_start sep s in if c == sep then rest else c ∷ s

unfoldable pub trim_end : ℕ → List ℕ → List ℕ
trim_end sep [] = []
trim_end sep (c ∷ s) =
    let rest = trim_end sep s in if c == sep && is_empty rest then [] else c ∷ rest

-- `str::trim_matches` of a character
unfoldable pub trim_matches : ℕ → List ℕ → List ℕ
unfolding trim_start trim_end
trim_matches sep s = trim_end sep (trim_start sep s)

abbrev pub to_ascii_lowercase : ℕ → ℕ
to_ascii_lowercase c = if leb b'A' c && leb c b'Z' then c + 32 else c

-- `u8::eq_ignore_ascii_case`, and `str::eq_ignore_ascii_case` on code points
unfoldable pub byte_eq_ignore_ascii_case : ℕ → ℕ → Bool
byte_eq_ignore_ascii_case a b = to_ascii_lowercase a == to_ascii_lowercase b

unfoldable pub eq_ignore_ascii_case : List ℕ → List ℕ → Bool
unfolding same
eq_ignore_ascii_case s t = same (map to_ascii_lowercase s) (map to_ascii_lowercase t)

-- `char::encode_utf8` and `str::as_bytes`
abbrev pub encode_utf8 : ℕ → List ℕ
encode_utf8 c =
    if ltb c 0x80
    then c ∷ []
    else if ltb c 0x800
    then (0xC0 + c / 64) ∷ (0x80 + c % 64) ∷ []
    else if ltb c 0x10000
    then (0xE0 + c / 4096) ∷ (0x80 + c / 64 % 64) ∷ (0x80 + c % 64) ∷ []
    else (0xF0 + c / 262144) ∷ (0x80 + c / 4096 % 64) ∷ (0x80 + c / 64 % 64) ∷ (0x80 + c % 64) ∷ []

unfoldable pub as_bytes : List ℕ → List ℕ
as_bytes [] = []
as_bytes (c ∷ s) = encode_utf8 c ++ as_bytes s

-- A text that holds none of the given characters.
abbrev pub Avoids : List ℕ → List ℕ → Type 0
Avoids bad = All (λ c. All (λ b. c ≢ b) bad)

elem-false : (c : ℕ) (bad : List ℕ) → elem c bad ≡ false → All (λ b. c ≢ b) bad
elem-false c [] h = tt
elem-false c (b ∷ bad) h = (ground arith, elem-false c bad (ground arith))

elem_avoided : (c : ℕ) (bad : List ℕ) → All (λ b. c ≢ b) bad → elem c bad ≡ false
elem_avoided c [] h = refl
elem_avoided c (b ∷ bad) h = ground (arith, elem_avoided c bad h.1)

pub contains_any→Avoids : (bad s : List ℕ) → contains_any bad s ≡ false → Avoids bad s
unfolding contains_any
contains_any→Avoids bad [] h = tt
contains_any→Avoids bad (c ∷ s) h =
    (elem-false c bad (ground arith), contains_any→Avoids bad s (ground arith))

pub Avoids→contains_any : (bad s : List ℕ) → Avoids bad s → contains_any bad s ≡ false
unfolding contains_any
Avoids→contains_any bad [] h = refl
Avoids→contains_any bad (c ∷ s) h =
    ground (arith, elem_avoided c bad h.0, Avoids→contains_any bad s h.1)

abbrev FreeOf : ℕ → List ℕ → Type 0
FreeOf sep = All (λ c. c ≢ sep)

-- No part of a split holds the separator.
pub split-FreeOf : (sep : ℕ) (s : List ℕ) → All (All (λ c. c ≢ sep)) (split sep s)
unfolding split
split-FreeOf sep [] = (tt, tt)
split-FreeOf sep (c ∷ s) = head (split sep s) (split-FreeOf sep s)
  where
    head :
        (parts : List (List ℕ))
        → All (FreeOf sep) parts
        → All (FreeOf sep) (if c == sep then [] ∷ parts else cons_head c parts)
    head [] h = ground arith
    head (p ∷ ps) h = ground arith
