-- ===== src/Path/Safety.antt =====
-- What path.rs lets through: the parts of a parsed path are safe names.
use smbanything.Base.{
  ℕ, List, [], ◌∷◌, ◌≡◌, ◌≢◌, ◌||◌, true, false, arith, Result, ok, err, same, All, Bool-cases, inl,
  inr, refl, sym, subst, ap, ◌∙◌, same_refl, same→eq, Bool,
}
use smbanything.Base.Text.{
  is_empty, contains_any, split, trim_matches, codes, Avoids, contains_any→Avoids,
  Avoids→contains_any, split-FreeOf,
}
use smbanything.Path.{SmbPath, parse_parts, parse, forbidden, separator}

-- A name that means one thing: not empty, not `.` or `..`, and none of its characters is a
-- separator or forbidden in a file name.
pub record IsSafe (name : List ℕ) : Type 0 where
  pub not_empty : name ≢ []
  pub not_dot : name ≢ codes "."
  pub not_dot_dot : name ≢ codes ".."
  pub no_separator : All (λ c. c ≢ separator) name
  pub no_forbidden : Avoids forbidden name

abbrev pub ambiguous : List ℕ → Bool
ambiguous part = is_empty part || same part (codes ".") || same part (codes "..")

unambiguous :
    (part : List ℕ)
    → ambiguous part ≡ false
    → (part ≢ []) × (part ≢ codes ".") × (part ≢ codes "..")
unambiguous part h = (
  λ e. elim (Bool-cases (is_empty part)) [ inl t ↦ ground arith | inr f ↦ ground arith ],
  λ e. ground (arith, same_refl (codes ".")),
  λ e. ground (arith, same_refl (codes "..")),
)

-- What one round of the loop has checked when the loop succeeds.
parse_parts-cons :
    (part : List ℕ) (rest out : List (List ℕ))
    → parse_parts (part ∷ rest) ≡ ok out
    → (out' : List (List ℕ)) × (parse_parts rest ≡ ok out')
      × (out ≡ part ∷ out')
      × (ambiguous part ≡ false)
      × (contains_any forbidden part ≡ false)
unfolding parse_parts
parse_parts-cons part rest out h = go (parse_parts rest) refl
  where
    go :
        (r : Result (List (List ℕ)))
        → parse_parts rest ≡ r
        → (out' : List (List ℕ)) × (parse_parts rest ≡ ok out')
          × (out ≡ part ∷ out')
          × (ambiguous part ≡ false)
          × (contains_any forbidden part ≡ false)
    go (ok o) e = (o, e, ground arith, ground arith, ground arith)
    go (err st) e = ground arith

parse_parts-nil : (out : List (List ℕ)) → parse_parts [] ≡ ok out → out ≡ []
unfolding parse_parts
parse_parts-nil out h = cc

pub parse_parts-parts : (parts out : List (List ℕ)) → parse_parts parts ≡ ok out → out ≡ parts
parse_parts-parts [] out h = parse_parts-nil out h
parse_parts-parts (part ∷ rest) out h =
    let (out', e, shape, a, f) = parse_parts-cons part rest out h in
    shape ∙ ap (λ t. part ∷ t) (parse_parts-parts rest out' e)

parse_parts-IsSafe :
    (parts out : List (List ℕ))
    → All (All (λ c. c ≢ separator)) parts
    → parse_parts parts ≡ ok out
    → All IsSafe parts
parse_parts-IsSafe [] out free h = tt
parse_parts-IsSafe (part ∷ rest) out free h =
    let (out', e, shape, a, f) = parse_parts-cons part rest out h in
    let (p, q, r) = unambiguous part a in
    (
      record {
        not_empty = p;
        not_dot = q;
        not_dot_dot = r;
        no_separator = free.0;
        no_forbidden = contains_any→Avoids forbidden part f;
      },
      parse_parts-IsSafe rest out' free.1 e,
    )

-- A name with nothing ambiguous or forbidden passes the loop's two tests.
is_empty-false : (name : List ℕ) → name ≢ [] → is_empty name ≡ false
is_empty-false [] h = absurd (h refl)
is_empty-false (c ∷ name) h = refl

pub IsSafe-ambiguous : (name : List ℕ) → IsSafe name → ambiguous name ≡ false
IsSafe-ambiguous name v = ground (
  arith,
  is_empty-false name v.not_empty,
  same→eq name (codes "."),
  same→eq name (codes ".."),
  v.not_dot,
  v.not_dot_dot,
)

pub parse_parts_safe : (parts : List (List ℕ)) → All IsSafe parts → parse_parts parts ≡ ok parts
unfolding parse_parts
parse_parts_safe [] h = refl
parse_parts_safe (p ∷ ps) h =
    rw
      (
        IsSafe-ambiguous p h.0,
        Avoids→contains_any forbidden p h.0.no_forbidden,
        parse_parts_safe ps h.1,
      )
      refl

-- Every component of a parsed path is a safe name.
pub parse-IsSafe : (raw : List ℕ) (p : SmbPath) → parse raw ≡ ok p → All IsSafe p.components
unfolding parse
parse-IsSafe raw p h =
    go (is_empty (trim_matches separator raw))
      (parse_parts (split separator (trim_matches separator raw))) refl refl
  where
    go :
        (b : Bool) (r : Result (List (List ℕ)))
        → is_empty (trim_matches separator raw) ≡ b
        → parse_parts (split separator (trim_matches separator raw)) ≡ r
        → All IsSafe p.components
    go true r e k = let q : p.components ≡ [] = ground arith in subst (All IsSafe) (sym q) tt
    go false (ok out) e k =
        let parts = split separator (trim_matches separator raw) in
        let q : p.components ≡ parts = ground (arith, parse_parts-parts parts out k) in
        subst (All IsSafe) (sym q)
          (parse_parts-IsSafe parts out (split-FreeOf separator (trim_matches separator raw)) k)
    go false (err st) e k = absurd (ground arith)
