-- ===== src/Wire/Tests.antt =====
-- Tests of wire.rs, and its theorems at concrete inputs.
use smbanything.Base.{[], ◌∷◌, ◌≡◌, inl, inr, refl, some, arith}
use smbanything.Wire.Utf16.{utf16le, from_utf16le, from_utf16le-utf16le}

-- A letter, and a character beyond the basic plane.
from_utf16le-utf16le_example :
    from_utf16le (utf16le (b'a' ∷ 0x1F600 ∷ [])) ≡ some (b'a' ∷ 0x1F600 ∷ [])
from_utf16le-utf16le_example =
    from_utf16le-utf16le (b'a' ∷ 0x1F600 ∷ [])
      (inl (omega arith), (inr (omega arith, omega arith), tt))

utf16le_surrogates : utf16le (0x1F600 ∷ []) ≡ 0x3D ∷ 0xD8 ∷ 0x00 ∷ 0xDE ∷ []
unfolding utf16le
utf16le_surrogates = refl
