-- ===== src/Server/Invariant.antt =====
-- What holds of a connection's session at all times.
use smbanything.Base.{
  ℕ, ◌+◌, ◌^◌, ◌≡◌, refl, sym, ◌∙◌, subst, inl, inr, true, false, none, some, List, ltb, leb,
  length, Bool-cases,
}
use smbanything.Platform.{Platform}
use smbanything.Server.Moves.{
  Moves, stays, settles, challenges, spends, logs_in, logs_out, connects, disconnects,
}
use smbanything.Server.State.{Ctx}
use smbanything.Session.Setup.{issue_challenge}
use smbanything.Session.State.{TreeKind, SessionState, alloc_tree_id, remove_tree}
use smbanything.Session.Trees.{add_tree, max_trees}
use smbanything.Session.Trees.Bounded.{IsBounded, add_tree-IsBounded, remove_tree-IsBounded}

-- The trees are within their bounds, an authenticated session has a signing key and a settled
-- dialect, and without a dialect there is no challenge.
pub record IsSound (s : SessionState) : Type 0 where
  pub bounded : IsBounded s
  pub keyed : s.authenticated ≡ true → (key : List ℕ) × (s.signing_key ≡ some key)
  pub settled : s.authenticated ≡ true → s.negotiated ≡ true
  pub unchallenged : s.negotiated ≡ false → s.server_challenge ≡ none

-- The fields that trees do not touch.
abbrev SameLogin : SessionState → SessionState → Type 0
SameLogin s t =
    (t.authenticated ≡ s.authenticated)
    × (t.signing_key ≡ s.signing_key)
    × (t.negotiated ≡ s.negotiated)
    × (t.server_challenge ≡ s.server_challenge)

add_tree-SameLogin : (kind : TreeKind) (s : SessionState) → SameLogin s (add_tree kind s).1
unfolding add_tree alloc_tree_id
add_tree-SameLogin kind s = elim (Bool-cases (leb max_trees (length s.trees))) [
  | inl full ↦ rw (add_tree, full) (refl, refl, refl, refl)
  | inr room ↦ elim (Bool-cases (ltb (s.next_tree_id + 1) (2 ^ 32))) [
    | inl free ↦ rw (add_tree, room, alloc_tree_id, free) (refl, refl, refl, refl)
    | inr spent ↦ rw (add_tree, room, alloc_tree_id, spent) (refl, refl, refl, refl)
  ]
]

SameLogin-IsSound : (s t : SessionState) → SameLogin s t → IsBounded t → IsSound s → IsSound t
SameLogin-IsSound s t (a, k, n, c) bounded sound = record {
  bounded = bounded;
  keyed = λ h. (let held = sound.keyed (sym a ∙ h) in (held.0, k ∙ held.1));
  settled = λ h. n ∙ sound.settled (sym a ∙ h);
  unchallenged = λ h. c ∙ sound.unchallenged (sym n ∙ h);
}

SameTrees-IsBounded :
    (s t : SessionState)
    → (t.trees ≡ s.trees)
    → (t.next_tree_id ≡ s.next_tree_id)
    → IsBounded s
    → IsBounded t
SameTrees-IsBounded s t e n b = record {
  few = rw e b.few;
  below = rw (e, n) b.below;
  distinct = rw e b.distinct;
  fits = rw n b.fits;
}

pub unkeyed-IsSound :
    (s : SessionState)
    → s.authenticated ≡ false
    → IsSound s
    → IsSound (record s { signing_key = none })
unkeyed-IsSound s off v = record {
  bounded = SameTrees-IsBounded s _ refl refl v.bounded;
  keyed = λ h. cc;
  settled = v.settled;
  unchallenged = v.unchallenged;
}

module _ (platform : Platform) (ctx : Ctx) where
  pub Moves-IsSound : (s t : SessionState) → Moves platform ctx s t → IsSound s → IsSound t
  unfolding issue_challenge remove_tree
  Moves-IsSound s t (stays e) v = subst IsSound (sym e) v
  Moves-IsSound s t (settles e) v = subst IsSound (sym e) (record {
    bounded = SameTrees-IsBounded s _ refl refl v.bounded;
    keyed = v.keyed;
    settled = λ h. refl;
    unchallenged = λ h. cc;
  })
  Moves-IsSound s t (connects kind live e) v =
      subst IsSound (sym e)
        (SameLogin-IsSound s _ (add_tree-SameLogin kind s) (add_tree-IsBounded kind s v.bounded) v)
  Moves-IsSound s t (disconnects id live e) v =
      subst IsSound (sym e)
        (SameLogin-IsSound s _ (refl, refl, refl, refl) (remove_tree-IsBounded id s v.bounded) v)
  Moves-IsSound s t (challenges drawn settled e) v = subst IsSound (sym e) (record {
    bounded = SameTrees-IsBounded s _ refl refl v.bounded;
    keyed = v.keyed;
    settled = v.settled;
    unchallenged = λ h. cc;
  })
  Moves-IsSound s t (spends n e) v = subst IsSound (sym e) (record {
    bounded = SameTrees-IsBounded s _ refl refl v.bounded;
    keyed = v.keyed;
    settled = v.settled;
    unchallenged = λ h. refl;
  })
  Moves-IsSound s t (logs_in ntlmssp challenge key settled held proof e) v =
      subst IsSound (sym e) (record {
        bounded = SameTrees-IsBounded s _ refl refl v.bounded;
        keyed = λ h. (key, refl);
        settled = λ h. settled;
        unchallenged = λ h. refl;
      })
  Moves-IsSound s t (logs_out live e) v = subst IsSound (sym e) (record {
    bounded = SameTrees-IsBounded s _ refl refl v.bounded;
    keyed = λ h. cc;
    settled = λ h. cc;
    unchallenged = v.unchallenged;
  })
