-- ===== src/Files/Glob/Reference.antt =====
-- The matcher of files.rs against a matcher without a budget.
use smbanything.Base.{
  ℕ, ◌-◌, List, [], ◌∷◌, Bool, true, false, not, ◌&&◌, ◌||◌, ◌≡◌, ◌⊎◌, ◌≤◌, subst, inl, inr, refl,
  arith, ◌==◌, if◌then◌else◌, same, same→eq, Bool-cases, sym,
}
use smbanything.Base.Text.{is_empty, elem, byte_eq_ignore_ascii_case, as_bytes, codes}
use smbanything.Files.Glob.{
  Matcher, dos_star, dos_qm, dos_dot, star_loop, dos_star_loop, match_head, glob_match,
  match_budget, pattern_matches,
}

-- What is left of a name behind any run of its characters.
abbrev pub suffixes : List ℕ → List (List ℕ)
suffixes [] = [] ∷ []
suffixes (c ∷ name) = (c ∷ name) ∷ suffixes name

-- The same for a run that ends at the last dot, or just behind it, at the latest.
abbrev pub dos_suffixes : List ℕ → List (List ℕ)
dos_suffixes [] = [] ∷ []
dos_suffixes (c ∷ name) =
    let more = dos_suffixes name in
    (c ∷ name) ∷ (if c == b'.' && not (elem b'.' name) then name ∷ [] else more)

abbrev pub any : (List ℕ → Bool) → List (List ℕ) → Bool
any test [] = false
any test (n ∷ ns) = test n || any test ns

-- What one character of a pattern means, given what the rest of the pattern matches.
abbrev pub head_matches : ℕ → (List ℕ → Bool) → List ℕ → Bool
head_matches p rest name =
    if p == b'*'
    then any rest (suffixes name)
    else if p == dos_star
    then any rest (dos_suffixes name)
    else elim name [
      | [] ↦ (p == dos_qm || p == dos_dot) && rest []
      | c ∷ tail ↦
          if p == dos_qm
          then rest (if c == b'.' then c ∷ tail else tail)
          else if p == dos_dot
          then c == b'.' && rest tail
          else (p == b'?' || byte_eq_ignore_ascii_case p c) && rest tail
    ]

unfoldable pub matches : List ℕ → List ℕ → Bool
matches [] name = is_empty name
matches (p ∷ pattern) name = head_matches p (matches pattern) name

-- The verdict is the reference's, or the budget is spent and the verdict is no. The budget never grows.
abbrev pub Agrees : ℕ → Bool × ℕ → Bool → Type 0
Agrees budget (verdict, left) expected =
    ((verdict ≡ expected) ⊎ ((verdict ≡ false) × (left ≡ 0))) × (left ≤ budget)

module _ (f : Matcher) (g : List ℕ → Bool) (h : (n : List ℕ) (b : ℕ) → Agrees b (f n b) (g n)) where
  star_loop-Agrees : (name : List ℕ) (b : ℕ) → Agrees b (star_loop f name b) (any g (suffixes name))
  unfolding star_loop
  star_loop-Agrees [] b = ground (arith, h [] b)
  star_loop-Agrees (c ∷ name) b =
      ground (arith, h (c ∷ name) b, star_loop-Agrees name (f (c ∷ name) b).1)

  dos_star_loop-Agrees :
      (name : List ℕ) (b : ℕ) → Agrees b (dos_star_loop f name b) (any g (dos_suffixes name))
  unfolding dos_star_loop
  dos_star_loop-Agrees [] b = ground (arith, h [] b)
  dos_star_loop-Agrees (c ∷ name) b = ground (
    arith,
    h (c ∷ name) b,
    h name (f (c ∷ name) b).1,
    dos_star_loop-Agrees name (f (c ∷ name) b).1,
  )

  match_head-Agrees :
      (p : ℕ) (name : List ℕ) (b : ℕ) → Agrees b (match_head p f name b) (head_matches p g name)
  match_head-Agrees p [] b =
      ground (arith, h [] b, star_loop-Agrees [] b, dos_star_loop-Agrees [] b)
  match_head-Agrees p (c ∷ name) b = ground (
    arith,
    h (c ∷ name) b,
    h name b,
    star_loop-Agrees (c ∷ name) b,
    dos_star_loop-Agrees (c ∷ name) b,
  )

-- On any pattern, name and budget the matcher answers as the reference does, or it has spent its budget
-- and answers no. The budget left is at most the one given. In the reference `*` takes any run of
-- characters, and `<` any run that holds no more than the last dot of what is left of the name and
-- ends with it where it holds it, so that `<` may take in that dot.
pub glob_match-Agrees :
    (pattern name : List ℕ) (budget : ℕ)
    → Agrees budget (glob_match pattern name budget) (matches pattern name)
unfolding glob_match matches
glob_match-Agrees [] name budget = ground arith
glob_match-Agrees (p ∷ pattern) name budget = ground (
  arith,
  match_head-Agrees (glob_match pattern) (matches pattern) (glob_match-Agrees pattern) p name
      (budget - 1),
)

any-suffixes_last : (name : List ℕ) → any is_empty (suffixes name) ≡ true
any-suffixes_last [] = refl
any-suffixes_last (c ∷ name) = ground (arith, any-suffixes_last name)

matches_star : (name : List ℕ) → matches (b'*' ∷ []) name ≡ true
unfolding matches
matches_star name = any-suffixes_last name

-- A name is listed only if the pattern matches it by the reference; the empty pattern lists every name.
pub pattern_matches→matches :
    (pattern name : List ℕ)
    → pattern_matches pattern name ≡ true
    → (is_empty pattern ≡ true) ⊎ (matches (as_bytes pattern) (as_bytes name) ≡ true)
unfolding pattern_matches as_bytes
pattern_matches→matches pattern name h = elim (Bool-cases (same pattern (codes "*"))) [
  | inl star ↦ inr (
      subst (λ t. matches (as_bytes t) (as_bytes name) ≡ true)
        (sym (same→eq pattern (codes "*") star)) (matches_star (as_bytes name)))
  | inr other ↦ ground (
    arith,
    glob_match-Agrees (as_bytes pattern) (as_bytes name)
        (match_budget (as_bytes pattern) (as_bytes name)),
  )
]
