-- ===== src/Wire/Writer.antt =====
-- The append-only buffer `Writer` of wire.rs, with its in-place patch.
use smbanything.Base.{
  ℕ, ◌+◌, ◌-◌, ◌%◌, ◌≤◌, ◌<◌, ◌≡◌, ap, sym, ◌∙◌, inl, inr, Bool-cases, append-nil, Option, none,
  some, List, [], ◌∷◌, ◌++◌, arith, ltb, ◌==◌, if◌then◌else◌, length, take, drop, replicate,
  le_bytes, append_assoc, length-append, length-take, length-drop, length-replicate, take-append_eq,
  drop-append_eq, drop-add,
}
use Prim.Native.Nat.{zero, suc}

pub record Writer : Type 0 where
  pub buf : List ℕ

-- `Writer::new` and `Writer::with_capacity`: the capacity is no part of the contents.
abbrev pub empty : Writer
empty = record { buf = [] }

-- One call after another on the same buffer.
infixl 20 ◌▸◌
abbrev pub ◌▸◌ : Writer → (Writer → Writer) → Writer
w ▸ f = f w

unfoldable pub bytes : List ℕ → Writer → Writer
bytes v w = record { buf = w.buf ++ v }

unfoldable pub u8 : ℕ → Writer → Writer
unfolding bytes
u8 v = bytes (v ∷ [])

unfoldable pub u16 : ℕ → Writer → Writer
unfolding bytes
u16 v = bytes (le_bytes 2 v)

unfoldable pub u32 : ℕ → Writer → Writer
unfolding bytes
u32 v = bytes (le_bytes 4 v)

unfoldable pub u64 : ℕ → Writer → Writer
unfolding bytes
u64 v = bytes (le_bytes 8 v)

unfoldable pub zeros : ℕ → Writer → Writer
unfolding bytes
zeros n = bytes (replicate n 0)

-- The loop of `align_to`, on fuel: `align` rounds reach a multiple.
unfoldable pub align_loop : ℕ → ℕ → Writer → Writer
align_loop zero align w = w
align_loop (suc fuel) align w =
    let more = align_loop fuel align (bytes (0 ∷ []) w) in
    if length w.buf % align == 0 then w else more

unfoldable pub align_to : ℕ → Writer → Writer
unfolding align_loop bytes
align_to align w = align_loop align align w

-- A patch past the end is a panic in the source, `none` here.
unfoldable pub patch_u32 : ℕ → ℕ → Writer → Option Writer
patch_u32 at v w =
    if ltb (length w.buf) (at + 4)
    then none
    else some (record { buf = take at w.buf ++ (le_bytes 4 v ++ drop (at + 4) w.buf) })

bytes-append : (xs ys : List ℕ) (w : Writer) → bytes ys (bytes xs w) ≡ bytes (xs ++ ys) w
unfolding bytes
bytes-append xs ys w = ap (λ b. record { buf = b }) (append_assoc w.buf xs ys)

-- How many zeros `align_to` appends at 8, the alignment of every call.
abbrev pub padding : ℕ → ℕ
padding n = (8 - n % 8) % 8

buf-align_loop :
    (fuel : ℕ) (w : Writer)
    → padding (length w.buf) ≤ fuel
    → (align_loop fuel 8 w).buf ≡ w.buf ++ replicate (padding (length w.buf)) 0
unfolding align_loop bytes
buf-align_loop zero w p =
    let e : padding (length w.buf) ≡ 0 = omega arith in rw e (sym (append-nil w.buf))
buf-align_loop (suc fuel) w p = elim (Bool-cases (length w.buf % 8 == 0)) [
  | inl aligned ↦
      let e : padding (length w.buf) ≡ 0 = ground arith in rw (aligned, e) (sym (append-nil w.buf))
  | inr more ↦
      let n : length (w.buf ++ 0 ∷ []) ≡ length w.buf + 1 = length-append w.buf (0 ∷ []) in
      let e : padding (length w.buf) ≡ suc (padding (length (w.buf ++ 0 ∷ []))) =
        ground (arith, n) in
      let w' : Writer = record { buf = w.buf ++ 0 ∷ [] } in
      rw (more, e)
        (buf-align_loop fuel w' (omega arith)
          ∙ append_assoc w.buf (0 ∷ []) (replicate (padding (length (w.buf ++ 0 ∷ []))) 0))
]

pub buf-align_to : (w : Writer) → (align_to 8 w).buf ≡ w.buf ++ replicate (padding (length w.buf)) 0
unfolding align_to
buf-align_to w = buf-align_loop 8 w (omega arith)

-- Padding to 8 keeps what was written, appends at most 7 zeros and reaches a multiple of 8.
pub align_to_lem :
    (w : Writer)
    → (n : ℕ) × (n < 8)
      × ((align_to 8 w).buf ≡ w.buf ++ replicate n 0)
      × (length (align_to 8 w).buf % 8 ≡ 0)
align_to_lem w =
    let n = padding (length w.buf) in
    (
      n,
      omega arith,
      buf-align_to w,
      omega (
        arith,
        ap length (buf-align_to w),
        length-append w.buf (replicate n 0),
        length-replicate {A = ℕ} n 0,
      ),
    )

-- A patch inside the buffer replaces four bytes by the number's and keeps the rest and the length.
pub patch_u32_lem :
    (at v : ℕ) (w : Writer)
    → at + 4 ≤ length w.buf
    → (w' : Writer) × (patch_u32 at v w ≡ some w')
      × (take at w'.buf ≡ take at w.buf)
      × (take 4 (drop at w'.buf) ≡ le_bytes 4 v)
      × (drop (at + 4) w'.buf ≡ drop (at + 4) w.buf)
      × (length w'.buf ≡ length w.buf)
unfolding patch_u32
patch_u32_lem at v w h =
    let front = take at w.buf in
    let back = le_bytes 4 v ++ drop (at + 4) w.buf in
    let n : length front ≡ at = omega (arith, length-take at w.buf) in
    let after : drop at (front ++ back) ≡ back = drop-append_eq at front back n in
    (
      record { buf = front ++ back },
      ground arith,
      take-append_eq at front back n,
      ap (take 4) after,
      drop-add at 4 (front ++ back) ∙ ap (drop 4) after,
      omega (arith, n, length-append front back, length-drop (at + 4) w.buf),
    )

pub length-align_loop :
    (fuel align : ℕ) (w : Writer) → length (align_loop fuel align w).buf ≤ length w.buf + fuel
unfolding align_loop bytes
length-align_loop zero align w = omega arith
length-align_loop (suc fuel) align w =
    let w' : Writer = record { buf = w.buf ++ 0 ∷ [] } in
    let more = length-align_loop fuel align w' in
    let one : length (w.buf ++ 0 ∷ []) ≡ length w.buf + 1 = length-append w.buf (0 ∷ []) in
    ground (arith, more, one)
