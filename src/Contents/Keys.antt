-- ===== src/Contents/Keys.antt =====
-- The keys of an archive index, and what `BTreeMap::insert` does to the lookups in it.
use smbanything.Base.{
  ℕ, suc, ◌+◌, ◌≤◌, ◌<◌, ◌≡◌, ◌≢◌, refl, sym, ap, subst, ◌∙◌, inl, inr, true, false, ◌==◌, List, [],
  ◌∷◌, map, some, arith, if◌then◌else◌, Bool-cases, length, length-take, take, same_refl,
}
use smbanything.Contents.Archive.{normalized_key}
use smbanything.Contents.Index.{Key, key_lt, same_key, get, put}
use smbanything.Contents.Sorted.{same_key→eq}

pub same_key_refl : (ps : Key) → same_key ps ps ≡ true
unfolding same_key
same_key_refl [] = refl
same_key_refl (p ∷ ps) = ground (arith, same_refl p, same_key_refl ps)

pub differs : (ps qs : Key) → length ps ≢ length qs → same_key ps qs ≡ false
differs ps qs h = elim (Bool-cases (same_key ps qs)) [
  | inl e ↦ absurd (h (ap length (same_key→eq ps qs e)))
  | inr e ↦ e
]

pub length-map : (f : List ℕ → List ℕ) (ps : Key) → length (map f ps) ≡ length ps
length-map f [] = refl
length-map f (p ∷ ps) = ap suc (length-map f ps)

module _ {V : Type 0} where
  pub get-put :
      (j key : Key) (v : V) (m : List (Key × V))
      → get j (put key v m) ≡ (if same_key j key then some v else get j m)
  unfolding get put
  get-put j key v [] = refl
  get-put j key v ((k, w) ∷ m) = elim (Bool-cases (key_lt key k)) [
    | inl before ↦ rw before refl
    | inr after ↦ elim (Bool-cases (same_key key k)) [
      | inl here ↦
          let e : k ≡ key = sym (same_key→eq key k here) in rw (after, here, e) (ground arith)
      | inr there ↦ elim (Bool-cases (same_key j k)) [
        | inl jk ↦
            let e : j ≡ k = same_key→eq j k jk in
            let other : same_key j key ≡ false = elim (Bool-cases (same_key j key)) [
              | inl jkey ↦
                  let f : j ≡ key = same_key→eq j key jkey in
                  absurd (cc (there, subst (λ t. same_key t k ≡ true) f jk))
              | inr no_match ↦ no_match
            ] in
            rw (after, there, jk, other) refl
        | inr jk ↦ rw (after, there, jk) (get-put j key v m)
      ]
    ]
  ]

module _ (to_lowercase : List ℕ → List ℕ) (components : List (List ℕ)) where
  -- The key of the path up to a depth.
  abbrev pub above : ℕ → Key
  above d = normalized_key to_lowercase (take d components)

  pub length-above : (d : ℕ) → d ≤ length components → length (above d) ≡ d
  length-above d h =
      length-map to_lowercase (take d components) ∙ length-take d components ∙ omega arith

  pub above_apart :
      (j : Key) (n d : ℕ)
      → length j ≡ n
      → d ≤ length components
      → n ≢ d
      → same_key j (above d) ≡ false
  above_apart j n d e h apart =
      differs j (above d) (λ same_length. apart (sym e ∙ same_length ∙ length-above d h))

-- At every number from the one up to the other.
abbrev pub Between : ℕ → ℕ → (ℕ → Type 0) → Type 0
Between lo hi P = (d : ℕ) → lo ≤ d → d < hi → P d

pub first_or_later :
    (depth hi : ℕ) (P : ℕ → Type 0) → P depth → Between (depth + 1) hi P → Between depth hi P
first_or_later depth hi P now later d lo up = elim (Bool-cases (d == depth)) [
  | inl e ↦ let same : depth ≡ d = ground arith in subst P same now
  | inr e ↦ later d (ground arith) up
]
