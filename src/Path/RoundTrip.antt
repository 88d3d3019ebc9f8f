-- ===== src/Path/RoundTrip.antt =====
-- Rendering a path and parsing it again; separators at the ends.
use smbanything.Base.{
  ℕ, zero, suc, List, [], ◌∷◌, ◌++◌, ◌≡◌, ◌≢◌, refl, ap, sym, ◌∙◌, false, arith, ok, All, replicate,
  append_assoc, append-nil,
}
use smbanything.Base.Text.{is_empty, split, trim_start, trim_end, trim_matches, join}
use smbanything.Path.{SmbPath, parse, separator, to_smb_string, to_smb_absolute}
use smbanything.Path.Safety.{IsSafe, parse_parts_safe}

abbrev FreeOf : ℕ → List ℕ → Type 0
FreeOf sep = All (λ c. c ≢ sep)

split_free : (sep : ℕ) (p : List ℕ) → FreeOf sep p → split sep p ≡ p ∷ []
unfolding split
split_free sep [] h = refl
split_free sep (c ∷ p) h = ground (arith, split_free sep p h.1)

split-append :
    (sep : ℕ) (p t : List ℕ) → FreeOf sep p → split sep (p ++ (sep ∷ t)) ≡ p ∷ split sep t
unfolding split
split-append sep [] t h = ground arith
split-append sep (c ∷ p) t h = ground (arith, split-append sep p t h.1)

split-join :
    (sep : ℕ) (p : List ℕ) (ps : List (List ℕ))
    → All (FreeOf sep) (p ∷ ps)
    → split sep (join sep (p ∷ ps)) ≡ p ∷ ps
unfolding join
split-join sep p [] h = split_free sep p h.0
split-join sep p (q ∷ ps) h =
    split-append sep p (join sep (q ∷ ps)) h.0 ∙ ap (λ t. p ∷ t) (split-join sep q ps h.1)

trim_end_free : (sep : ℕ) (p : List ℕ) → FreeOf sep p → trim_end sep p ≡ p
unfolding trim_end
trim_end_free sep [] h = refl
trim_end_free sep (c ∷ p) h = ground (arith, trim_end_free sep p h.1)

trim_end-append :
    (sep : ℕ) (p t : List ℕ)
    → trim_end sep t ≡ t
    → is_empty t ≡ false
    → (trim_end sep (p ++ t) ≡ p ++ t) × (is_empty (p ++ t) ≡ false)
unfolding trim_end
trim_end-append sep [] t h k = (h, k)
trim_end-append sep (c ∷ p) t h k = ground (arith, trim_end-append sep p t h k)

join_ends :
    (sep : ℕ) (p : List ℕ) (ps : List (List ℕ))
    → All (λ q. FreeOf sep q × (q ≢ [])) (p ∷ ps)
    → (trim_end sep (join sep (p ∷ ps)) ≡ join sep (p ∷ ps))
      × (is_empty (join sep (p ∷ ps)) ≡ false)
      × (trim_start sep (join sep (p ∷ ps)) ≡ join sep (p ∷ ps))
unfolding join trim_end trim_start
join_ends sep [] ps h = absurd (h.0.1 refl)
join_ends sep (c ∷ p) [] h = ground (arith, trim_end_free sep p h.0.0.1)
join_ends sep (c ∷ p) (q ∷ ps) h =
    let inner = join_ends sep q ps h.1 in
    let t = join sep (q ∷ ps) in
    let whole = trim_end-append sep (p ++ (sep ∷ [])) t inner.0 inner.1 in
    ground (arith, whole, append_assoc p (sep ∷ []) t)

trim_matches_cons : (sep : ℕ) (s : List ℕ) → trim_matches sep (sep ∷ s) ≡ trim_matches sep s
unfolding trim_matches
trim_matches_cons sep s = ground arith

-- Where the ends are no separators, parsing is the loop over the split text.
parse_trimmed :
    (raw t : List ℕ) (parts : List (List ℕ))
    → trim_matches separator raw ≡ t
    → is_empty t ≡ false
    → split separator t ≡ parts
    → All IsSafe parts
    → parse raw ≡ ok (record { components = parts })
unfolding parse
parse_trimmed raw t parts e k q h = rw (e, k, q, parse_parts_safe parts h) refl

named : (parts : List (List ℕ)) → All IsSafe parts → All (λ q. FreeOf separator q × (q ≢ [])) parts
named [] h = tt
named (p ∷ ps) h = ((h.0.no_separator, h.0.not_empty), named ps h.1)

free : (parts : List (List ℕ)) → All IsSafe parts → All (FreeOf separator) parts
free [] h = tt
free (p ∷ ps) h = (h.0.no_separator, free ps h.1)

parse_components :
    (parts : List (List ℕ))
    → All IsSafe parts
    → (parse (join separator parts) ≡ ok (record { components = parts }))
      × (parse (separator ∷ join separator parts) ≡ ok (record { components = parts }))
parse_components [] h = unfold parse trim_matches join in (refl, refl)
parse_components (p ∷ ps) h =
    let t = join separator (p ∷ ps) in
    let (ends, filled, start) = join_ends separator p ps (named (p ∷ ps) h) in
    let trimmed : trim_matches separator t ≡ t = unfold trim_matches in (rw (start, ends) refl) in
    let parts = split-join separator p ps (free (p ∷ ps) h) in
    (
      parse_trimmed t t (p ∷ ps) trimmed filled parts h,
      parse_trimmed (separator ∷ t) t (p ∷ ps) (trim_matches_cons separator t ∙ trimmed) filled
          parts h,
    )

-- Rendering a path of safe names, in either form, and parsing the text gives the path back.
pub parse-to_smb_string :
    (p : SmbPath)
    → All IsSafe p.components
    → (parse (to_smb_string p) ≡ ok p) × (parse (to_smb_absolute p) ≡ ok p)
unfolding to_smb_string to_smb_absolute
parse-to_smb_string p h = parse_components p.components h

trim_end_snoc : (sep : ℕ) (s : List ℕ) → trim_end sep (s ++ (sep ∷ [])) ≡ trim_end sep s
unfolding trim_end
trim_end_snoc sep [] = ground arith
trim_end_snoc sep (c ∷ s) = ground (arith, trim_end_snoc sep s)

trim_matches_snoc : (sep : ℕ) (s : List ℕ) → trim_matches sep (s ++ (sep ∷ [])) ≡ trim_matches sep s
unfolding trim_matches
trim_matches_snoc sep [] = ground arith
trim_matches_snoc sep (c ∷ s) = ground (arith, trim_matches_snoc sep s, trim_end_snoc sep (c ∷ s))

trim_matches_front :
    (sep n : ℕ) (s : List ℕ) → trim_matches sep (replicate n sep ++ s) ≡ trim_matches sep s
trim_matches_front sep zero s = refl
trim_matches_front sep (suc n) s =
    trim_matches_cons sep (replicate n sep ++ s) ∙ trim_matches_front sep n s

trim_matches_back :
    (sep n : ℕ) (s : List ℕ) → trim_matches sep (s ++ replicate n sep) ≡ trim_matches sep s
trim_matches_back sep zero s = ap (trim_matches sep) (append-nil s)
trim_matches_back sep (suc n) s =
    ap (trim_matches sep) (sym (append_assoc s (sep ∷ []) (replicate n sep)))
    ∙ trim_matches_back sep n (s ++ sep ∷ [])
    ∙ trim_matches_snoc sep s

-- Separators before and behind a path, as many as a client likes, change nothing.
pub parse_outer_separators :
    (m n : ℕ) (raw : List ℕ)
    → parse (replicate m separator ++ (raw ++ replicate n separator)) ≡ parse raw
unfolding parse
parse_outer_separators m n raw =
    rw
      (
        trim_matches_front separator m (raw ++ replicate n separator),
        trim_matches_back separator n raw,
      )
      refl
