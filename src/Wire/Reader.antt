-- ===== src/Wire/Reader.antt =====
-- The bounds-checked cursor `Reader` of wire.rs. A method takes the cursor and returns it moved,
-- or `none` for an error: every caller replaces the error by a status or drops the message.
pub mod Bounds
use smbanything.Base.{
  ℕ, ◌+◌, ◌-◌, ◌≤◌, ◌<◌, ◌^◌, ◌≡◌, refl, ◌||◌, ◌⊎◌, Bool, true, false, Option, none, some, List, [],
  arith, ltb, ◌==◌, if◌then◌else◌, length, drop, le_value,
}
use smbanything.Base.Lists

pub record Reader : Type 0 where
  pub buf : List ℕ
  pub pos : ℕ

-- `Reader::new`
abbrev pub open_at_start : List ℕ → Reader
open_at_start buf = record { buf = buf; pos = 0 }

-- A chain of `?` on one cursor.
abbrev pub Parse {ℓ} : Type ℓ → Type ℓ
Parse A = Reader → Option (A × Reader)

infixl 5 ◌>>=◌ ◌>>◌
abbrev pub ◌>>=◌ {ℓ κ} : {A : Type ℓ} {B : Type κ} → Parse A → (A → Parse B) → Parse B
◌>>=◌ p f r = elim (p r) [ none ↦ none | some (a, r') ↦ f a r' ]

abbrev pub ◌>>◌ {ℓ κ} : {A : Type ℓ} {B : Type κ} → Parse A → Parse B → Parse B
p >> q = p >>= λ _. q

abbrev pub pure {ℓ} : {A : Type ℓ} → A → Parse A
pure a r = some (a, r)

abbrev pub fail {ℓ} : {A : Type ℓ} → Parse A
fail r = none

abbrev pub check : Bool → Parse (Unit {0})
check true r = some (tt, r)
check false r = none

unfoldable pub remaining : Reader → ℕ
remaining r = length r.buf - r.pos

unfoldable pub take : ℕ → Parse (List ℕ)
unfolding remaining
take n r =
    if ltb (remaining r) n
    then none
    else some (Lists.take n (drop r.pos r.buf), record r { pos = r.pos + n })

-- `u8`, `u16`, `u32` and `u64`: `take` of 1, 2, 4 and 8 bytes, read as a little-endian number.
unfoldable pub u8 : Parse ℕ
u8 = do bs ← take 1; pure (le_value bs)

unfoldable pub u16 : Parse ℕ
u16 = do bs ← take 2; pure (le_value bs)

unfoldable pub u32 : Parse ℕ
u32 = do bs ← take 4; pure (le_value bs)

unfoldable pub u64 : Parse ℕ
u64 = do bs ← take 8; pure (le_value bs)

unfoldable pub bytes : ℕ → Parse (List ℕ)
bytes n = take n

unfoldable pub skip : ℕ → Parse (Unit {0})
skip n = do take n; pure tt

-- `usize` has 64 bits; an offset and a length whose sum does not fit are refused.
abbrev pub usize_max : ℕ
usize_max = 2 ^ 64 - 1

unfoldable pub slice_at : Reader → ℕ → ℕ → Option (List ℕ)
slice_at r offset len =
    if offset == 0 || len == 0
    then some []
    else if ltb usize_max (offset + len)
    then none
    else if ltb (length r.buf) (offset + len)
    then none
    else some (Lists.take len (drop offset r.buf))
