-- ===== src/Wire/Reader/Bounds.antt =====
-- The cursor of wire.rs never reads past its buffer.
use smbanything.Base.{
  ℕ, ◌+◌, ◌≤◌, ◌<◌, ◌≡◌, ◌||◌, ◌⊎◌, Bool-cases, ◌==◌, inl, inr, none, some, [], arith, length, drop,
  length-take, length-drop,
}
use native.Mathlib.Decide.{dec_lt}
use smbanything.Base.Lists
use smbanything.Wire.Reader.{Reader, take, slice_at, usize_max}

-- With the cursor inside the buffer, `take` succeeds exactly where `n` bytes are left: it then yields those bytes, moves the cursor by
-- `n` and keeps the buffer. Otherwise it is an error.
pub take_cases :
    (n : ℕ) (r : Reader)
    → r.pos ≤ length r.buf
    → ((r.pos + n ≤ length r.buf)
        × (take n r ≡ some (Lists.take n (drop r.pos r.buf), record r { pos = r.pos + n }))
        × (length (Lists.take n (drop r.pos r.buf)) ≡ n))
      ⊎ ((length r.buf < r.pos + n) × (take n r ≡ none))
unfolding take
take_cases n r h = elim (dec_lt (length r.buf) (r.pos + n)) [
  | yes short ↦ inr (short, ground arith)
  | no fits ↦ inl (
    omega arith,
    ground arith,
    omega (arith, length-take n (drop r.pos r.buf), length-drop r.pos r.buf),
  )
]

-- `slice_at` on every branch, in a message whose length fits `usize`: a field with a zero offset or length is empty; any other is its own
-- bytes where it lies inside the message, and an error where it runs past the message's end.
pub slice_at_cases :
    (r : Reader) (offset len : ℕ)
    → length r.buf ≤ usize_max
    → (((offset ≡ 0) ⊎ (len ≡ 0)) × (slice_at r offset len ≡ some []))
      ⊎ ((offset + len ≤ length r.buf)
          × (slice_at r offset len ≡ some (Lists.take len (drop offset r.buf)))
          × (length (Lists.take len (drop offset r.buf)) ≡ len))
      ⊎ ((length r.buf < offset + len) × (slice_at r offset len ≡ none))
unfolding slice_at
slice_at_cases r offset len h = elim (Bool-cases (offset == 0 || len == 0)) [
  | inl absent ↦ inl (ground arith, ground arith)
  | inr present ↦ elim (dec_lt (length r.buf) (offset + len)) [
    | yes past ↦ inr (inr (past, ground arith))
    | no fits ↦ inr (
        inl (
          omega arith,
          ground arith,
          omega (arith, length-take len (drop offset r.buf), length-drop offset r.buf),
        ))
  ]
]
