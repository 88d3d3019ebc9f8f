-- ===== src/Files/State/Maps.antt =====
-- The laws of the maps of files.rs, for the tactics.
use smbanything.Base.{
  ℕ, ◌<◌, List, [], ◌∷◌, ◌≡◌, refl, none, some, arith, ◌==◌, if◌then◌else◌, ◌≤◌, Bool-cases, inl,
  inr,
}
use smbanything.Files.State.{lookup, erase, insert_entry}

module _ {ℓ} {V : Type ℓ} where
  pub lookup-erase :
      (k j : ℕ) (m : List (ℕ × V)) → lookup j (erase k m) ≡ (if k == j then none else lookup j m)
  unfolding lookup erase
  lookup-erase k j [] = ground arith
  lookup-erase k j ((i, v) ∷ m) = ground (arith, lookup-erase k j m)

  pub lookup-insert_entry :
      (k j : ℕ) (v : V) (m : List (ℕ × V))
      → lookup j (insert_entry k v m) ≡ (if k == j then some v else lookup j m)
  unfolding lookup
  lookup-insert_entry k j v m = ground (arith, lookup-erase k j m)

  -- Every key is below a bound.
  abbrev pub KeysBelow : ℕ → List (ℕ × V) → Type 0
  KeysBelow n [] = Unit
  KeysBelow n ((k, v) ∷ m) = (k < n) × KeysBelow n m

  -- No key stands twice.
  abbrev pub Distinct : List (ℕ × V) → Type ℓ
  Distinct [] = Unit
  Distinct ((k, v) ∷ m) = (lookup k m ≡ none) × Distinct m

  pub lookup-KeysBelow : (n k : ℕ) (m : List (ℕ × V)) → KeysBelow n m → n ≤ k → lookup k m ≡ none
  unfolding lookup
  lookup-KeysBelow n k [] h le = refl
  lookup-KeysBelow n k ((j, v) ∷ m) h le = ground (arith, lookup-KeysBelow n k m h.1 le)

  pub erase-KeysBelow : (n k : ℕ) (m : List (ℕ × V)) → KeysBelow n m → KeysBelow n (erase k m)
  unfolding erase
  erase-KeysBelow n k [] h = tt
  erase-KeysBelow n k ((j, v) ∷ m) h = elim (Bool-cases (j == k)) [
    | inl same ↦ rw same (erase-KeysBelow n k m h.1)
    | inr other ↦ rw other (h.0, erase-KeysBelow n k m h.1)
  ]

  pub KeysBelow-le : (n n' : ℕ) (m : List (ℕ × V)) → n ≤ n' → KeysBelow n m → KeysBelow n' m
  KeysBelow-le n n' [] le h = tt
  KeysBelow-le n n' ((j, v) ∷ m) le h = (omega arith, KeysBelow-le n n' m le h.1)

  pub erase-Distinct : (k : ℕ) (m : List (ℕ × V)) → Distinct m → Distinct (erase k m)
  unfolding erase
  erase-Distinct k [] h = tt
  erase-Distinct k ((j, v) ∷ m) h = elim (Bool-cases (j == k)) [
    | inl same ↦ rw same (erase-Distinct k m h.1)
    | inr other ↦ rw other (ground (arith, lookup-erase k j m), erase-Distinct k m h.1)
  ]

  pub insert_entry-Distinct :
      (k : ℕ) (v : V) (m : List (ℕ × V)) → Distinct m → Distinct (insert_entry k v m)
  insert_entry-Distinct k v m h = (ground (arith, lookup-erase k k m), erase-Distinct k m h)
