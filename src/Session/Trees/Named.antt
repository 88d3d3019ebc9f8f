-- ===== src/Session/Trees/Named.antt =====
-- Which share the path of a TREE_CONNECT names: `tree_connect` of session.rs.
use smbanything.Base.{
  ℕ, List, [], ◌∷◌, ◌++◌, ◌≡◌, ◌≢◌, ◌⊎◌, inl, inr, refl, ap, true, false, none, some, ◌==◌, ==_iff,
  arith, All, Bool-cases,
}
use smbanything.Base.Text.{codes, split, cons_head, eq_ignore_ascii_case}
use smbanything.Path.{separator}
use smbanything.Session.State.{TreeKind, disk, ipc}
use smbanything.Session.Trees.{last_or, requested_kind, requested_share}

-- The name is what stands behind the last separator of the path, or the whole path where it has none.
abbrev pub LastPart : List ℕ → List ℕ → Type 0
LastPart path name =
    All (λ c. c ≢ separator) name
    × ((path ≡ name) ⊎ ((front : List ℕ) × (path ≡ front ++ (separator ∷ name))))

-- How a split ends: it is the text itself, or its last part stands behind a separator.
abbrev Ended : List ℕ → List (List ℕ) → Type 0
Ended s parts =
    ((parts ≡ s ∷ []) × All (λ c. c ≢ separator) s)
    ⊎ ((front : List ℕ) × (p : List ℕ) × (q : List ℕ) × (ps : List (List ℕ)) × (parts ≡ p ∷ q ∷ ps)
        × (s ≡ front ++ (separator ∷ last_or q ps))
        × All (λ c. c ≢ separator) (last_or q ps))

split-Ended : (s : List ℕ) → Ended s (split separator s)
unfolding split
split-Ended [] = inl (refl, tt)
split-Ended (c ∷ s) = elim (Bool-cases (c == separator)) [
  | inl here ↦
      let first : c ≡ separator = (==_iff c separator).0 here in
      elim (split-Ended s) [
        | inl (e, free) ↦ rw here (inr ([], [], s, [], ap (λ t. [] ∷ t) e, rw first refl, free))
        | inr (front, p, q, ps, e, at, free) ↦
            rw here (inr (c ∷ front, [], p, q ∷ ps, ap (λ t. [] ∷ t) e, ap (λ t. c ∷ t) at, free))
      ]
  | inr other ↦ elim (split-Ended s) [
    | inl (e, free) ↦ rw other (inl (ap (cons_head c) e, (ground arith, free)))
    | inr (front, p, q, ps, e, at, free) ↦
        rw other (inr (c ∷ front, c ∷ p, q, ps, ap (cons_head c) e, ap (λ t. c ∷ t) at, free))
  ]
]

pub requested_share-LastPart : (path : List ℕ) → LastPart path (requested_share path)
unfolding requested_share
requested_share-LastPart path = elim (split-Ended path) [
  | inl (e, free) ↦ rw (requested_share, e) (free, inl refl)
  | inr (front, p, q, ps, e, at, free) ↦ rw (requested_share, e) (free, inr (front, at))
]

-- A name of the share, in any ASCII case, is that of a disk; any other name of the pipe share is a pipe.
abbrev pub IsNameOf : List ℕ → List ℕ → TreeKind → Type 0
IsNameOf share_name name kind =
    ((kind ≡ disk) × (eq_ignore_ascii_case name share_name ≡ true))
    ⊎ ((kind ≡ ipc)
        × (eq_ignore_ascii_case name share_name ≡ false)
        × (eq_ignore_ascii_case name (codes "IPC$") ≡ true))

pub requested_kind_cases :
    (share_name name : List ℕ)
    → ((requested_kind share_name name ≡ none)
        × (eq_ignore_ascii_case name share_name ≡ false)
        × (eq_ignore_ascii_case name (codes "IPC$") ≡ false))
      ⊎ ((kind : TreeKind) × (requested_kind share_name name ≡ some kind)
          × IsNameOf share_name name kind)
unfolding requested_kind
requested_kind_cases share_name name = elim (Bool-cases (eq_ignore_ascii_case name share_name)) [
  | inl a ↦ inr (disk, rw (requested_kind, a) refl, inl (refl, a))
  | inr a ↦ elim (Bool-cases (eq_ignore_ascii_case name (codes "IPC$"))) [
    | inl b ↦ inr (ipc, rw (requested_kind, a, b) refl, inr (refl, a, b))
    | inr b ↦ inl (rw (requested_kind, a, b) refl, a, b)
  ]
]
