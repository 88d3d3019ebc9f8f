-- ===== src/Contents/Listing.antt =====
-- `list` of src/archive.rs walks one range of the map and finds exactly the children of a directory.
use smbanything.Base.{
  ℕ, ◌+◌, ◌≡◌, refl, sym, ap, subst, inl, inr, true, false, ◌&&◌, List, [], ◌∷◌, arith, ◌==◌,
  if◌then◌else◌, Bool-cases, length, same, same→eq,
}
use smbanything.Contents.Index.{Key, str_lt, key_lt, starts_with, after, while_under, one_below}

str_lt_trans : (xs ys zs : List ℕ) → str_lt xs ys ≡ true → str_lt ys zs ≡ true → str_lt xs zs ≡ true
unfolding str_lt
str_lt_trans xs [] zs h k = absurd (ground (arith, h))
str_lt_trans xs (y ∷ ys) [] h k = absurd (ground (arith, k))
str_lt_trans [] (y ∷ ys) (z ∷ zs) h k = refl
str_lt_trans (x ∷ xs) (y ∷ ys) (z ∷ zs) h k = ground (arith, str_lt_trans xs ys zs)

str_lt_irrefl : (xs : List ℕ) → str_lt xs xs ≡ false
unfolding str_lt
str_lt_irrefl [] = refl
str_lt_irrefl (x ∷ xs) = ground (arith, str_lt_irrefl xs)

str_lt-same : (xs ys : List ℕ) → str_lt xs ys ≡ true → same xs ys ≡ false
str_lt-same xs ys h = elim (Bool-cases (same xs ys)) [
  | inr e ↦ e
  | inl e ↦ absurd (
      let refuted : str_lt xs xs ≡ true =
        subst (λ t. str_lt xs t ≡ true) (sym (same→eq xs ys e)) h in
      ground (arith, refuted, str_lt_irrefl xs))
]

-- Behind a parent's subtree there is nothing of it left.
starts_with-key_lt :
    (parent k later : Key)
    → key_lt parent k ≡ true
    → starts_with k parent ≡ false
    → key_lt k later ≡ true
    → starts_with later parent ≡ false
unfolding key_lt starts_with
starts_with-key_lt [] k later h off next = absurd (ground (arith, off))
starts_with-key_lt (p ∷ ps) [] later h off next = absurd (ground (arith, h))
starts_with-key_lt (p ∷ ps) (c ∷ cs) [] h off next = refl
starts_with-key_lt (p ∷ ps) (c ∷ cs) (d ∷ ds) h off next = elim (Bool-cases (same c d)) [
  | inl cd ↦
      let d' : c ≡ d = same→eq c d cd in
      elim (Bool-cases (same p c)) [
        | inl pc ↦
            let c' : p ≡ c = same→eq p c pc in
            let below : key_lt ps cs ≡ true =
              ground (arith, h, subst (λ t. str_lt p t ≡ false) c' (str_lt_irrefl p)) in
            let onward : key_lt cs ds ≡ true =
              ground (arith, next, subst (λ t. str_lt c t ≡ false) d' (str_lt_irrefl c)) in
            let rest = starts_with-key_lt ps cs ds below (ground (arith, off, pc)) onward in
            ground (arith, rest)
        | inr pc ↦
            let e : same p d ≡ false = subst (λ t. same p t ≡ false) d' pc in ground (arith, e)
      ]
  | inr cd ↦
      let far : str_lt c d ≡ true = ground (arith, next, cd) in
      elim (Bool-cases (same p c)) [
        | inl pc ↦
            let e : same p d ≡ false = subst (λ t. same t d ≡ false) (sym (same→eq p c pc)) cd in
            ground (arith, e)
        | inr pc ↦
            let near : str_lt p c ≡ true = ground (arith, h, pc) in
            let e = str_lt-same p d (str_lt_trans p c d near far) in ground (arith, e)
      ]
]

-- A child lies behind its parent.
child-key_lt :
    (parent k : Key)
    → starts_with k parent ≡ true
    → length k ≡ length parent + 1
    → key_lt parent k ≡ true
unfolding key_lt starts_with
child-key_lt [] [] h n = absurd (omega (arith, n))
child-key_lt [] (c ∷ cs) h n = refl
child-key_lt (p ∷ ps) [] h n = absurd (ground (arith, h))
child-key_lt (p ∷ ps) (c ∷ cs) h n =
    let rest = child-key_lt ps cs (ground (arith, h)) (omega (arith, n)) in ground (arith, h, rest)

not_child :
    (parent k : Key)
    → key_lt parent k ≡ false
    → (starts_with k parent && length k == length parent + 1) ≡ false
not_child parent k e = elim (Bool-cases (starts_with k parent && length k == length parent + 1)) [
  | inr h ↦ h
  | inl h ↦
      let under : starts_with k parent ≡ true = ground (arith, h) in
      let one : length k ≡ length parent + 1 = ground (arith, h) in
      absurd (ground (arith, e, child-key_lt parent k under one))
]

pub key_lt_trans :
    (ps qs rs : Key) → key_lt ps qs ≡ true → key_lt qs rs ≡ true → key_lt ps rs ≡ true
unfolding key_lt
key_lt_trans ps [] rs h k = absurd (ground (arith, h))
key_lt_trans ps (q ∷ qs) [] h k = absurd (ground (arith, k))
key_lt_trans [] (q ∷ qs) (r ∷ rs) h k = refl
key_lt_trans (p ∷ ps) (q ∷ qs) (r ∷ rs) h k = elim (Bool-cases (str_lt p q)) [
  | inl near ↦ elim (Bool-cases (str_lt q r)) [
    | inl far ↦ ground (arith, str_lt_trans p q r near far)
    | inr far ↦
        let e : q ≡ r = same→eq q r (ground (arith, k, far)) in
        let there : str_lt p r ≡ true = subst (λ t. str_lt p t ≡ true) e near in
        ground (arith, there)
  ]
  | inr near ↦
      let e : p ≡ q = same→eq p q (ground (arith, h, near)) in
      elim (Bool-cases (str_lt q r)) [
        | inl far ↦
            let there : str_lt p r ≡ true = subst (λ t. str_lt t r ≡ true) (sym e) far in
            ground (arith, there)
        | inr far ↦
            let qr : same q r ≡ true = ground (arith, k, far) in
            let pr : same p r ≡ true = subst (λ t. same t r ≡ true) (sym e) qr in
            let rest = key_lt_trans ps qs rs (ground (arith, h, near)) (ground (arith, k, far)) in
            ground (arith, pr, rest)
      ]
]

module _ {V : Type 0} where
  -- The keys ascend, each before all behind it.
  abbrev pub Before : Key → List (Key × V) → Type 0
  Before key [] = Unit
  Before key ((k, v) ∷ m) = (key_lt key k ≡ true) × Before key m

  abbrev pub IsSorted : List (Key × V) → Type 0
  IsSorted [] = Unit
  IsSorted ((k, v) ∷ m) = Before k m × IsSorted m

  -- What a directory holds: every path that extends its own by one name.
  unfoldable pub children : Key → List (Key × V) → List (Key × V)
  children parent [] = []
  children parent ((k, v) ∷ m) =
      let later = children parent m in
      if starts_with k parent && length k == length parent + 1 then (k, v) ∷ later else later

  no_children :
      (parent k : Key) (m : List (Key × V))
      → key_lt parent k ≡ true
      → starts_with k parent ≡ false
      → Before k m
      → children parent m ≡ []
  unfolding children
  no_children parent k [] h off b = refl
  no_children parent k ((j, v) ∷ m) h off b =
      let away = starts_with-key_lt parent k j h off b.0 in
      ground (arith, away, no_children parent k m h off b.1)

  under_children :
      (parent : Key) (m : List (Key × V))
      → Before parent m
      → IsSorted m
      → one_below parent (while_under parent m) ≡ children parent m
  unfolding while_under one_below children
  under_children parent [] b s = refl
  under_children parent ((k, v) ∷ m) b s = elim (Bool-cases (starts_with k parent)) [
    | inl e ↦ elim (Bool-cases (length k == length parent + 1)) [
      | inl n ↦ rw (e, n) (ap (λ t. (k, v) ∷ t) (under_children parent m b.1 s.1))
      | inr n ↦ rw (e, n) (under_children parent m b.1 s.1)
    ]
    | inr e ↦ rw e (sym (no_children parent k m b.0 e s.0))
  ]

  pub Before-trans :
      (parent k : Key) (m : List (Key × V)) → key_lt parent k ≡ true → Before k m → Before parent m
  Before-trans parent k [] h b = tt
  Before-trans parent k ((j, v) ∷ m) h b =
      (key_lt_trans parent k j h b.0, Before-trans parent k m h b.1)

  -- In a sorted map, the range behind a path, cut where it leaves the path's subtree and sifted by
  -- length, holds exactly the paths that extend it by one name, in their order.
  pub range-children :
      (parent : Key) (m : List (Key × V))
      → IsSorted m
      → one_below parent (while_under parent (after parent m)) ≡ children parent m
  unfolding after children
  range-children parent [] s = unfold while_under one_below in refl
  range-children parent ((k, v) ∷ m) s = elim (Bool-cases (key_lt parent k)) [
    | inl e ↦ rw e (under_children parent ((k, v) ∷ m) (e, Before-trans parent k m e s.0) s)
    | inr e ↦
        let none_here : (starts_with k parent && length k == length parent + 1) ≡ false =
          not_child parent k e in
        rw (e, none_here) (range-children parent m s.1)
  ]
