-- ===== src/Files/Handles/Invalidation.antt =====
-- Replacing the contents of the share reaches every open file: the registry of files.rs.
use smbanything.Base.{
  ℕ, Bool, true, false, List, [], ◌∷◌, ◌++◌, ◌≡◌, ◌⊎◌, inl, inr, refl, none, arith, ◌==◌,
  if◌then◌else◌, length, Bool-cases, subst,
}
use smbanything.Base.Text.{elem}
use smbanything.Files.State.{invalidate, new_state, OpenState, Shared, lookup, erase}
use smbanything.Files.Handles.{
  register, invalidate_at, invalidate_each, invalidate_all, retain_alive, is_some,
}

-- Every state in the store has its address in the registry.
abbrev pub Listed : List ℕ → List (ℕ × OpenState) → Type 0
Listed addresses [] = Unit
Listed addresses ((a, s) ∷ store) = (elem a addresses ≡ true) × Listed addresses store

abbrev pub IsRegistered : Shared → Type 0
IsRegistered shared = Listed shared.registry.states shared.store

-- A state that a replacement has reached: not valid, and nothing of the old contents is cached.
pub record IsDead (s : OpenState) : Type 0 where
  pub not_valid : s.valid ≡ false
  pub no_reader : s.reader ≡ none
  pub no_entries : s.dir_entries ≡ none

abbrev pub AllDead : List (ℕ × OpenState) → Type 0
AllDead [] = Unit
AllDead ((a, s) ∷ store) = IsDead s × AllDead store

-- Dead, or to be reached by the addresses that are left.
abbrev DeadOrListed : List ℕ → List (ℕ × OpenState) → Type 0
DeadOrListed addresses [] = Unit
DeadOrListed addresses ((a, s) ∷ store) =
    (IsDead s ⊎ (elem a addresses ≡ true)) × DeadOrListed addresses store

invalidate_at-DeadOrListed :
    (b : ℕ) (addresses : List ℕ) (store : List (ℕ × OpenState))
    → DeadOrListed (b ∷ addresses) store
    → DeadOrListed addresses (invalidate_at b store)
unfolding invalidate_at
invalidate_at-DeadOrListed b addresses [] h = tt
invalidate_at-DeadOrListed b addresses ((a, s) ∷ store) h =
    (reached, invalidate_at-DeadOrListed b addresses store h.1)
  where
    reached : IsDead (if a == b then invalidate s else s) ⊎ (elem a addresses ≡ true)
    reached = elim (Bool-cases (a == b)) [
      | inl same ↦ inl (rw same (record { not_valid = refl; no_reader = refl; no_entries = refl }))
      | inr other ↦ elim h.0 [ inl dead ↦ inl (rw other dead) | inr listed ↦ inr (ground arith) ]
    ]

invalidate_each-AllDead :
    (addresses : List ℕ) (store : List (ℕ × OpenState))
    → DeadOrListed addresses store
    → AllDead (invalidate_each addresses store)
unfolding invalidate_each
invalidate_each-AllDead [] [] h = tt
invalidate_each-AllDead [] ((a, s) ∷ store) h = (
  elim h.0 [ inl dead ↦ dead | inr listed ↦ absurd (ground arith) ],
  invalidate_each-AllDead [] store h.1,
)
invalidate_each-AllDead (b ∷ addresses) store h =
    invalidate_each-AllDead addresses (invalidate_at b store)
      (invalidate_at-DeadOrListed b addresses store h)

Listed→DeadOrListed :
    (addresses : List ℕ) (store : List (ℕ × OpenState))
    → Listed addresses store
    → DeadOrListed addresses store
Listed→DeadOrListed addresses [] h = tt
Listed→DeadOrListed addresses ((a, s) ∷ store) h =
    (inr h.0, Listed→DeadOrListed addresses store h.1)

-- If every state in the store is registered, then after a replacement none is valid or holds a reader or
-- a listing.
pub invalidate_all-AllDead :
    (shared : Shared) → IsRegistered shared → AllDead (invalidate_all shared).store
unfolding invalidate_all
invalidate_all-AllDead shared h =
    invalidate_each-AllDead shared.registry.states shared.store
      (Listed→DeadOrListed shared.registry.states shared.store h)

elem-append_right : (a : ℕ) (xs : List ℕ) → elem a (xs ++ a ∷ []) ≡ true
elem-append_right a [] = ground arith
elem-append_right a (x ∷ xs) = ground (arith, elem-append_right a xs)

elem-append_left : (a : ℕ) (xs ys : List ℕ) → elem a xs ≡ true → elem a (xs ++ ys) ≡ true
elem-append_left a [] ys h = absurd (ground arith)
elem-append_left a (x ∷ xs) ys h = ground (arith, elem-append_left a xs ys)

-- The clean-up of the registry drops no address that still has its state.
elem-retain_alive :
    (a : ℕ) (store : List (ℕ × OpenState)) (xs : List ℕ)
    → elem a xs ≡ true
    → is_some (lookup a store) ≡ true
    → elem a (retain_alive store xs) ≡ true
unfolding retain_alive
elem-retain_alive a store [] h live = absurd (ground arith)
elem-retain_alive a store (x ∷ xs) h live = elim (Bool-cases (a == x)) [
  | inl same ↦
      let e : a ≡ x = ground arith in
      let live' : is_some (lookup x store) ≡ true =
        subst (λ k. is_some (lookup k store) ≡ true) e live in
      ground (arith, live')
  | inr other ↦ ground (arith, elem-retain_alive a store xs)
]

-- Every key of the second map is a key of the first.
abbrev AllIn : List (ℕ × OpenState) → List (ℕ × OpenState) → Type 0
AllIn whole [] = Unit
AllIn whole ((a, s) ∷ store) = (is_some (lookup a whole) ≡ true) × AllIn whole store

AllIn-cons :
    (b : ℕ) (t : OpenState) (whole store : List (ℕ × OpenState))
    → AllIn whole store
    → AllIn ((b, t) ∷ whole) store
unfolding lookup
AllIn-cons b t whole [] h = tt
AllIn-cons b t whole ((a, s) ∷ store) h = (ground arith, AllIn-cons b t whole store h.1)

AllIn-refl : (store : List (ℕ × OpenState)) → AllIn store store
unfolding lookup
AllIn-refl [] = tt
AllIn-refl ((a, s) ∷ store) = (ground arith, AllIn-cons a s store store (AllIn-refl store))

Listed-map :
    (xs ys : List ℕ) (whole store : List (ℕ × OpenState))
    → ((a : ℕ) → elem a xs ≡ true → is_some (lookup a whole) ≡ true → elem a ys ≡ true)
    → AllIn whole store
    → Listed xs store
    → Listed ys store
Listed-map xs ys whole [] f inside h = tt
Listed-map xs ys whole ((a, s) ∷ store) f inside h =
    (f a h.0 inside.0, Listed-map xs ys whole store f inside.1 h.1)

kept-Listed :
    (full : Bool) (xs : List ℕ) (a : ℕ) (whole store : List (ℕ × OpenState))
    → AllIn whole store
    → Listed xs store
    → Listed ((if full then retain_alive whole xs else xs) ++ a ∷ []) store
kept-Listed true xs a whole store inside h =
    Listed-map xs _ whole store
      (λ b e live.
        elem-append_left b (retain_alive whole xs) (a ∷ []) (elem-retain_alive b whole xs e live))
      inside h
kept-Listed false xs a whole store inside h =
    Listed-map xs _ whole store (λ b e live. elem-append_left b xs (a ∷ []) e) inside h

-- If every state in the store is registered, then so is every state once a new one is registered too,
-- in a full vector or not.
pub register-IsRegistered :
    (grow : ℕ → ℕ) (a : ℕ) (shared : Shared)
    → IsRegistered shared
    → IsRegistered (register grow a (record shared { store = (a, new_state) ∷ shared.store }))
unfolding register
register-IsRegistered grow a shared h =
    let whole : List (ℕ × OpenState) = (a, new_state) ∷ shared.store in
    let xs = shared.registry.states in
    let full = length xs == shared.registry.capacity in
    (
      elem-append_right a (if full then retain_alive whole xs else xs),
      kept-Listed full xs a whole shared.store
          (AllIn-cons a new_state shared.store shared.store (AllIn-refl shared.store)) h,
    )

pub erase-Listed :
    (xs : List ℕ) (a : ℕ) (store : List (ℕ × OpenState))
    → Listed xs store
    → Listed xs (erase a store)
unfolding erase
erase-Listed xs a [] h = tt
erase-Listed xs a ((b, s) ∷ store) h = elim (Bool-cases (b == a)) [
  | inl same ↦ rw same (erase-Listed xs a store h.1)
  | inr other ↦ rw other (h.0, erase-Listed xs a store h.1)
]
