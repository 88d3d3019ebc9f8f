-- ===== src/Session/Trees/Bounded.antt =====
-- The trees of a connection in session.rs: their number, their ids and their kinds.
use smbanything.Base.{
  ℕ, ◌+◌, ◌^◌, ◌≤◌, ◌<◌, List, [], ◌∷◌, ◌≡◌, ◌≢◌, ◌⊎◌, inl, inr, refl, none, some, ok, err, arith,
  leb, ltb, length, Bool-cases,
}
use smbanything.Files.State.{erase}
use smbanything.Files.State.Maps.{
  KeysBelow, Distinct, lookup-insert_entry, lookup-KeysBelow, erase-KeysBelow, KeysBelow-le,
  erase-Distinct, insert_entry-Distinct,
}
use smbanything.Proto.Status
use smbanything.Session.State.{TreeKind, SessionState, alloc_tree_id, tree_kind, remove_tree}
use smbanything.Session.Trees.{add_tree, max_trees}

-- At most 64 trees, no id twice, each id given out at some time, and the ids fit 32 bits.
pub record IsBounded (s : SessionState) : Type 0 where
  pub few : length s.trees ≤ max_trees
  pub below : KeysBelow (s.next_tree_id + 1) s.trees
  pub distinct : Distinct s.trees
  pub fits : s.next_tree_id < 2 ^ 32

length-erase : {V : Type 0} (k : ℕ) (m : List (ℕ × V)) → length (erase k m) ≤ length m
unfolding erase
length-erase k [] = omega arith
length-erase k ((j, v) ∷ m) = ground (arith, length-erase k m)

pub add_tree-IsBounded :
    (kind : TreeKind) (s : SessionState) → IsBounded s → IsBounded (add_tree kind s).1
unfolding add_tree alloc_tree_id
add_tree-IsBounded kind s b = elim (Bool-cases (leb max_trees (length s.trees))) [
  | inl full ↦ rw (add_tree, full) b
  | inr room ↦ elim (Bool-cases (ltb (s.next_tree_id + 1) (2 ^ 32))) [
    | inr spent ↦ rw (add_tree, room, spent) b
    | inl free ↦
        rw (add_tree, room, free)
          (record {
            few = ground (arith, length-erase (s.next_tree_id + 1) s.trees);
            below = (
              omega arith,
              erase-KeysBelow (s.next_tree_id + 1 + 1) (s.next_tree_id + 1) s.trees (
                  KeysBelow-le (s.next_tree_id + 1) (s.next_tree_id + 1 + 1) s.trees (omega arith)
                    b.below),
            );
            distinct = insert_entry-Distinct (s.next_tree_id + 1) kind s.trees b.distinct;
            fits = ground arith;
          })
  ]
]

pub remove_tree-IsBounded :
    (id : ℕ) (s : SessionState) → IsBounded s → IsBounded (remove_tree id s).1
unfolding remove_tree
remove_tree-IsBounded id s b = record {
  few = omega (arith, b.few, length-erase id s.trees);
  below = erase-KeysBelow (s.next_tree_id + 1) id s.trees b.below;
  distinct = erase-Distinct id s.trees b.distinct;
  fits = b.fits;
}

-- What happens to the trees of a connection.
pub data TreeCall : Type 0 where
  connects : TreeKind → TreeCall
  disconnects : ℕ → TreeCall

unfoldable pub after : TreeCall → SessionState → SessionState
after (connects kind) s = (add_tree kind s).1
after (disconnects id) s = (remove_tree id s).1

unfoldable pub after_all : List TreeCall → SessionState → SessionState
unfolding after
after_all [] s = s
after_all (c ∷ cs) s = after_all cs (after c s)

after-IsBounded : (c : TreeCall) (s : SessionState) → IsBounded s → IsBounded (after c s)
unfolding after
after-IsBounded (connects kind) s b = add_tree-IsBounded kind s b
after-IsBounded (disconnects id) s b = remove_tree-IsBounded id s b

-- From a session where this holds, however a client connects and disconnects trees: at most 64 are open, no id stands twice, every open
-- id is at most the last one given out, and ids fit 32 bits.
pub after_all-IsBounded :
    (cs : List TreeCall) (s : SessionState) → IsBounded s → IsBounded (after_all cs s)
unfolding after_all
after_all-IsBounded [] s b = b
after_all-IsBounded (c ∷ cs) s b = after_all-IsBounded cs (after c s) (after-IsBounded c s b)

-- In a session with bounded trees, a connected tree has an id that was never given out, under which it is found with its kind; every
-- other id names what it did. Otherwise nothing changes: 64 trees are open, or the ids are spent.
pub add_tree_cases :
    (kind : TreeKind) (s : SessionState) (j : ℕ)
    → IsBounded s
    → j ≢ s.next_tree_id + 1
    → ((add_tree kind s ≡ (err Status.request_not_accepted, s))
        × ((length s.trees ≡ max_trees) ⊎ (s.next_tree_id + 1 ≡ 2 ^ 32)))
      ⊎ (((add_tree kind s).0 ≡ ok (s.next_tree_id + 1))
          × ((add_tree kind s).1.next_tree_id ≡ s.next_tree_id + 1)
          × (tree_kind (s.next_tree_id + 1) s ≡ none)
          × (tree_kind (s.next_tree_id + 1) (add_tree kind s).1 ≡ some kind)
          × (tree_kind j (add_tree kind s).1 ≡ tree_kind j s))
unfolding tree_kind add_tree alloc_tree_id
add_tree_cases kind s j b ne =
    let id = s.next_tree_id + 1 in
    elim (Bool-cases (leb max_trees (length s.trees))) [
      | inl full ↦ inl (rw (add_tree, full) refl, inl (ground (arith, b.few)))
      | inr room ↦ elim (Bool-cases (ltb id (2 ^ 32))) [
        | inr spent ↦
            inl (rw (add_tree, room, alloc_tree_id, spent) refl, inr (ground (arith, b.fits)))
        | inl free ↦ inr (
            rw (add_tree, room, alloc_tree_id, free)
              (
                refl,
                refl,
                lookup-KeysBelow id id s.trees b.below (omega arith),
                ground (arith, lookup-insert_entry id id kind s.trees),
                ground (arith, lookup-insert_entry id j kind s.trees),
              ))
      ]
    ]
