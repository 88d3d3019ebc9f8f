-- ===== src/Sign/Extents.antt =====
-- The extents that `pdu_extents` of sign.rs finds.
use smbanything.Base.{
  ℕ, zero, suc, ◌+◌, ◌-◌, ◌^◌, ◌||◌, ◌≤◌, ◌<◌, List, [], ◌∷◌, ◌≡◌, ◌≢◌, ◌⊎◌, refl, subst, arith,
  true, false, ltb, length, same, same_refl, same→eq, le_value, ◌==◌, Bool-cases, inl, inr,
}
use smbanything.Proto.Header.{smb2_magic, header_len}
use smbanything.Sign.{extents_loop, pdu_extents, slice}

-- Where a PDU that starts at `o` ends: where its NextCommand says, when that leaves room for a header
-- and stays inside the buffer and 64 bits, and at the end of the buffer otherwise.
abbrev pub Ends : List ℕ → ℕ → ℕ → Type 0
Ends buf o end =
    let next = le_value (slice (o + 20) 4 buf) in
    ((header_len ≤ next) × (o + next ≤ length buf) × (end ≡ o + next))
    ⊎ (((next < header_len) ⊎ ((length buf < o + next) ⊎ (2 ^ 64 ≤ o + next))) × (end ≡ length buf))

-- The extents follow one another from `o` without a gap. Each holds a header that begins with the SMB2
-- magic and ends as its NextCommand says, inside the buffer. Behind the last one no header stands.
abbrev pub Tiles : List ℕ → ℕ → List (ℕ × ℕ) → Type 0
Tiles buf o [] = (length buf < o + header_len) ⊎ (slice o 4 buf ≢ smb2_magic)
Tiles buf o ((start, end) ∷ es) =
    (start ≡ o)
    × (o + header_len ≤ length buf)
    × (slice o 4 buf ≡ smb2_magic)
    × Ends buf o end
    × (end ≤ length buf)
    × Tiles buf end es

differs : {xs ys : List ℕ} → same xs ys ≡ false → xs ≢ ys
differs {xs} {ys} h e = absurd (cc (h, subst (λ t. same xs t ≡ true) e (same_refl xs)))

last_extent :
    (buf : List ℕ) (o next : ℕ)
    → (next == 0
        || ltb next header_len
        || ltb (2 ^ 64 - 1) (o + next)
        || ltb (length buf) (o + next))
      ≡ true
    → (next < header_len) ⊎ ((length buf < o + next) ⊎ (2 ^ 64 ≤ o + next))
last_extent buf o next last = elim (Bool-cases (ltb next header_len)) [
  | inl short ↦ inl (ground arith)
  | inr long ↦ elim (Bool-cases (ltb (length buf) (o + next))) [
    | inl out ↦ inr (inl (ground arith))
    | inr inside ↦ inr (inr (ground arith))
  ]
]

extents_loop-Tiles :
    (fuel : ℕ) (buf : List ℕ) (o : ℕ)
    → length buf ≤ o + fuel
    → Tiles buf o (extents_loop fuel buf o)
unfolding extents_loop
extents_loop-Tiles zero buf o enough = inl (omega arith)
extents_loop-Tiles (suc fuel) buf o enough =
    let next = le_value (slice (o + 20) 4 buf) in
    elim (Bool-cases (ltb (length buf) (o + header_len))) [
      | inl short ↦ rw short (inl (ground arith))
      | inr room ↦ elim (Bool-cases (same (slice o 4 buf) smb2_magic)) [
        | inr other ↦ rw (room, other) (inr (λ e. differs other e))
        | inl magic ↦
            let begins = same→eq (slice o 4 buf) smb2_magic magic in
            elim (Bool-cases (
              next == 0
              || ltb next header_len
              || ltb (2 ^ 64 - 1) (o + next)
              || ltb (length buf) (o + next))) [
                | inl last ↦
                    rw (room, magic, last)
                      (
                        refl,
                        ground arith,
                        begins,
                        inr (last_extent buf o next last, refl),
                        omega arith,
                        inl (omega arith),
                      )
                | inr more ↦
                    rw (room, magic, more)
                      (
                        refl,
                        ground arith,
                        begins,
                        inl (ground arith, ground arith, refl),
                        ground arith,
                        extents_loop-Tiles fuel buf (o + next) (ground arith),
                      )
              ]
      ]
    ]

-- The extents of any buffer tile it from its start: one after another without a gap, each with a header
-- that begins with the SMB2 magic and with the end that its NextCommand asks for, or the buffer's where
-- that is no place for a PDU to end, up to the first place at which no header stands.
pub pdu_extents-Tiles : (buf : List ℕ) → Tiles buf 0 (pdu_extents buf)
unfolding pdu_extents
pdu_extents-Tiles buf = extents_loop-Tiles (length buf) buf 0 (omega arith)

-- Fuel that reaches the end of the buffer is enough: more of it changes nothing.
pub extents_loop_enough :
    (f g : ℕ) (buf : List ℕ) (o : ℕ)
    → length buf ≤ o + f
    → length buf ≤ o + g
    → extents_loop f buf o ≡ extents_loop g buf o
unfolding extents_loop
extents_loop_enough zero zero buf o p q = refl
extents_loop_enough zero (suc g) buf o p q = ground arith
extents_loop_enough (suc f) zero buf o p q = ground arith
extents_loop_enough (suc f) (suc g) buf o p q =
    let next = le_value (slice (o + 20) 4 buf) in
    elim (Bool-cases (next == 0)) [
      | inl z ↦ ground arith
      | inr k ↦ ground (arith, extents_loop_enough f g buf (o + next) (ground arith) (ground arith))
    ]
