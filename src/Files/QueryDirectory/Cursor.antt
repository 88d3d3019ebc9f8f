-- ===== src/Files/QueryDirectory/Cursor.antt =====
-- The cursor of QUERY_DIRECTORY in files.rs.
use smbanything.Base.{
  ℕ, ◌+◌, ◌-◌, ◌≤◌, ◌<◌, List, [], ◌∷◌, Bool, false, ◌&&◌, ◌≡◌, refl, ◌∙◌, ap, some, arith, leb,
  ◌==◌, length, drop, Bool-cases, inl, inr,
}
use smbanything.Files.QueryDirectory.{Entry, matched_from, nth, advance}

-- Positions before the cursor no longer matter once the list is past them.
matched_from_past :
    (test : Entry → Bool) (pos pos' i : ℕ) (all : List Entry)
    → pos ≤ i
    → pos' ≤ i
    → matched_from test pos i all ≡ matched_from test pos' i all
unfolding matched_from
matched_from_past test pos pos' i [] p q = refl
matched_from_past test pos pos' i (e ∷ es) p q =
    ground (arith, matched_from_past test pos pos' (i + 1) es (omega arith) (omega arith))

nth-matched_from :
    (test : Entry → Bool) (pos i n k : ℕ) (e : Entry) (all : List Entry)
    → nth n (matched_from test pos i all) ≡ some (k, e)
    → (i ≤ k) × (pos ≤ k) × (k < i + length all)
unfolding matched_from
nth-matched_from test pos i n k e [] h = absurd (ground arith)
nth-matched_from test pos i n k e (x ∷ xs) h = ground (
  arith,
  nth-matched_from test pos (i + 1) n k e xs,
  nth-matched_from test pos (i + 1) (n - 1) k e xs,
)

-- Behind the `n`th match, the matches from there on are those that were left.
matched_from_resume :
    (test : Entry → Bool) (pos i n k : ℕ) (e : Entry) (all : List Entry)
    → nth n (matched_from test pos i all) ≡ some (k, e)
    → matched_from test (k + 1) i all ≡ drop (n + 1) (matched_from test pos i all)
unfolding matched_from
matched_from_resume test pos i n k e [] h = absurd (ground arith)
matched_from_resume test pos i n k e (x ∷ xs) h =
    let (above, behind, below) = nth-matched_from test pos i n k e (x ∷ xs) h in
    elim (Bool-cases (leb pos i && test x)) [
      | inr skipped ↦ ground (
        arith,
        nth-matched_from test pos (i + 1) n k e xs,
        matched_from_resume test pos (i + 1) n k e xs,
      )
      | inl here ↦ elim (Bool-cases (n == 0)) [
        | inl first ↦
            ground
              (arith, matched_from_past test pos (i + 1) (i + 1) xs (ground arith) (omega arith))
        | inr later ↦ ground (
          arith,
          nth-matched_from test pos (i + 1) (n - 1) k e xs,
          matched_from_resume test pos (i + 1) (n - 1) k e xs,
        )
      ]
    ]

nth_found : {A : Type 0} (n : ℕ) (xs : List A) → n < length xs → (x : A) × (nth n xs ≡ some x)
nth_found n [] p = absurd (omega arith)
nth_found n (x ∷ xs) p = elim (Bool-cases (n == 0)) [
  | inl first ↦ (x, rw first refl)
  | inr later ↦ let (y, e) = nth_found (n - 1) xs (ground arith) in (y, rw later e)
]

-- After a page of `n` of the matches, at least one, the cursor has moved on and lies inside the listing
-- or at its end, and the matches from it are exactly those that the page left, in their order.
pub matched_from-advance :
    (test : Entry → Bool) (pos n : ℕ) (all : List Entry)
    → 1 ≤ n
    → n ≤ length (matched_from test pos 0 all)
    → (matched_from test (advance pos n (matched_from test pos 0 all)) 0 all
        ≡ drop n (matched_from test pos 0 all))
      × (pos < advance pos n (matched_from test pos 0 all))
      × (advance pos n (matched_from test pos 0 all) ≤ length all)
unfolding advance
matched_from-advance test pos n all some_found in_page =
    let matched = matched_from test pos 0 all in
    let ((k, e), found) = nth_found (n - 1) matched (omega arith) in
    let (above, behind, below) = nth-matched_from test pos 0 (n - 1) k e all found in
    let positive : (n == 0) ≡ false = ground arith in
    let back : n - 1 + 1 ≡ n = omega arith in
    let after : advance pos n matched ≡ k + 1 = rw (advance, positive, found) refl in
    rw after (
      matched_from_resume test pos 0 (n - 1) k e all found ∙ ap (λ (m : ℕ). drop m matched) back,
      omega arith,
      omega arith,
    )
