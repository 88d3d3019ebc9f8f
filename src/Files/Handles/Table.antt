-- ===== src/Files/Handles/Table.antt =====
-- The table of open files: what `Handles` in files.rs keeps true, and what its methods find.
use smbanything.Base.{
  ℕ, ◌+◌, ◌%◌, ◌^◌, ◌<◌, ◌≤◌, Bool, List, [], ◌∷◌, ◌≡◌, refl, Option, none, some, arith, ◌==◌,
  if◌then◌else◌, Bool-cases, Option-cases, inl, inr,
}
use smbanything.Files.State.{OpenHandle, Handles, FileState, lookup, erase}
use smbanything.Files.State.Maps.{
  KeysBelow, Distinct, lookup-erase, lookup-insert_entry, erase-KeysBelow, KeysBelow-le,
  erase-Distinct, insert_entry-Distinct,
}
use smbanything.Files.Handles.{
  insert, remove, resolve, clear_chain, close_tree, close_all, remove_resolved, points_at,
  forget_stale, retain_other_trees,
}

-- Ids are below the next one, none is zero and none stands twice, and the placeholder of a
-- compound names an open file.
pub record IsConsistent (hs : Handles) : Type 0 where
  pub below : KeysBelow hs.next_id hs.open_files
  pub distinct : Distinct hs.open_files
  pub positive : 1 ≤ hs.next_id
  pub no_zero : lookup 0 hs.open_files ≡ none
  pub created :
      (id : ℕ) → hs.last_created ≡ some id → (h : OpenHandle) × (lookup id hs.open_files ≡ some h)

pub lookup-retain_none :
    (tree_id id : ℕ) (m : List (ℕ × OpenHandle))
    → lookup id m ≡ none
    → lookup id (retain_other_trees tree_id m) ≡ none
unfolding lookup retain_other_trees
lookup-retain_none tree_id id [] e = refl
lookup-retain_none tree_id id ((j, g) ∷ m) e = ground (arith, lookup-retain_none tree_id id m)

pub lookup-retain :
    (tree_id id : ℕ) (h : OpenHandle) (m : List (ℕ × OpenHandle))
    → Distinct m
    → lookup id m ≡ some h
    → lookup id (retain_other_trees tree_id m) ≡ (if h.tree_id == tree_id then none else some h)
unfolding lookup retain_other_trees
lookup-retain tree_id id h [] d e = absurd (ground arith)
lookup-retain tree_id id h ((j, g) ∷ m) d e = elim (Bool-cases (j == id)) [
  | inl same ↦
      let g_is_h : some g ≡ some h = ground arith in
      let t : g.tree_id ≡ h.tree_id = cc in
      let gone : lookup id m ≡ none = ground (arith, d.0) in
      ground (arith, g_is_h, t, lookup-retain_none tree_id id m gone)
  | inr other ↦ ground (arith, lookup-retain tree_id id h m d.1)
]

retain-KeysBelow :
    (n tree_id : ℕ) (m : List (ℕ × OpenHandle))
    → KeysBelow n m
    → KeysBelow n (retain_other_trees tree_id m)
unfolding retain_other_trees
retain-KeysBelow n tree_id [] k = tt
retain-KeysBelow n tree_id ((j, g) ∷ m) k = elim (Bool-cases (g.tree_id == tree_id)) [
  | inl same ↦ rw same (retain-KeysBelow n tree_id m k.1)
  | inr other ↦ rw other (k.0, retain-KeysBelow n tree_id m k.1)
]

retain-Distinct :
    (tree_id : ℕ) (m : List (ℕ × OpenHandle)) → Distinct m → Distinct (retain_other_trees tree_id m)
unfolding retain_other_trees
retain-Distinct tree_id [] d = tt
retain-Distinct tree_id ((j, g) ∷ m) d = elim (Bool-cases (g.tree_id == tree_id)) [
  | inl same ↦ rw same (retain-Distinct tree_id m d.1)
  | inr other ↦ rw other (lookup-retain_none tree_id j m d.0, retain-Distinct tree_id m d.1)
]

pub insert-IsConsistent :
    (grow : ℕ → ℕ) (h : OpenHandle) (s : FileState)
    → IsConsistent s.handles
    → s.handles.next_id + 1 < 2 ^ 64
    → IsConsistent (insert grow h s).1.handles
unfolding insert
insert-IsConsistent grow h s v room =
    let id = s.handles.next_id in
    let m = s.handles.open_files in
    record {
      below = (
        omega arith,
        KeysBelow-le id ((id + 1) % 2 ^ 64) (erase id m) (omega arith)
            (erase-KeysBelow id id m v.below),
      );
      distinct = insert_entry-Distinct id h m v.distinct;
      positive = omega arith;
      no_zero = ground (arith, lookup-insert_entry id 0 h m, v.no_zero, v.positive);
      created = λ k e. (h, ground (arith, lookup-insert_entry id k h m));
    }

pub clear_chain-IsConsistent : (hs : Handles) → IsConsistent hs → IsConsistent (clear_chain hs)
unfolding clear_chain
clear_chain-IsConsistent hs v = record {
  below = v.below;
  distinct = v.distinct;
  positive = v.positive;
  no_zero = v.no_zero;
  created = λ k e. absurd (ground arith);
}

-- The placeholder that is left after a removal still names an open file.
removed_created :
    (created : Option ℕ) (id k : ℕ) (m : List (ℕ × OpenHandle))
    → (created ≡ some k → (h : OpenHandle) × (lookup k m ≡ some h))
    → (if points_at created id then none else created) ≡ some k
    → (h : OpenHandle) × (lookup k (erase id m) ≡ some h)
removed_created none id k m v e = absurd (ground arith)
removed_created (some c) id k m v e =
    let (h, found) = v (ground arith) in (h, ground (arith, found, lookup-erase id k m))

forget_stale_created :
    (created : Option ℕ) (m : List (ℕ × OpenHandle)) (k : ℕ)
    → forget_stale created m ≡ some k
    → (h : OpenHandle) × (lookup k m ≡ some h)
forget_stale_created none m k e = absurd (ground arith)
forget_stale_created (some c) m k e = elim (Option-cases (lookup k m)) [
  | inl missing ↦ absurd (ground arith)
  | inr (h, found) ↦ (h, found)
]

remove_resolved-IsConsistent :
    (o : Option ℕ) (s : FileState)
    → IsConsistent s.handles
    → IsConsistent (remove_resolved o s).1.handles
remove_resolved-IsConsistent none s v = v
remove_resolved-IsConsistent (some id) s v =
    let m = s.handles.open_files in
    record {
      below = erase-KeysBelow s.handles.next_id id m v.below;
      distinct = erase-Distinct id m v.distinct;
      positive = v.positive;
      no_zero = ground (arith, lookup-erase id 0 m, v.no_zero);
      created = λ k e. removed_created s.handles.last_created id k m (v.created k) e;
    }

pub remove-IsConsistent :
    (id : ℕ) (related : Bool) (s : FileState)
    → IsConsistent s.handles
    → IsConsistent (remove id related s).1.handles
unfolding remove
remove-IsConsistent id related s v = remove_resolved-IsConsistent (resolve id related s.handles) s v

pub close_tree-IsConsistent :
    (tree_id : ℕ) (s : FileState)
    → IsConsistent s.handles
    → IsConsistent (close_tree tree_id s).handles
unfolding close_tree
close_tree-IsConsistent tree_id s v =
    let m = s.handles.open_files in
    record {
      below = retain-KeysBelow s.handles.next_id tree_id m v.below;
      distinct = retain-Distinct tree_id m v.distinct;
      positive = v.positive;
      no_zero = lookup-retain_none tree_id 0 m v.no_zero;
      created =
          λ k e. forget_stale_created s.handles.last_created (retain_other_trees tree_id m) k e;
    }

pub close_all-IsConsistent :
    (s : FileState) → IsConsistent s.handles → IsConsistent (close_all s).handles
unfolding close_all
close_all-IsConsistent s v = record {
  below = tt;
  distinct = tt;
  positive = v.positive;
  no_zero = unfold lookup in refl;
  created = λ k e. absurd (ground arith);
}
