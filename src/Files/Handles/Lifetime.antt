-- ===== src/Files/Handles/Lifetime.antt =====
-- How long a file id means a file: any sequence of the methods of `Handles`, and what each finds.
use smbanything.Base.{
  ℕ, ◌+◌, ◌^◌, ◌<◌, ◌≤◌, Bool, true, false, List, [], ◌∷◌, ◌≡◌, ◌≢◌, Option, none, some, arith,
  ◌==◌, if◌then◌else◌, length, Option-cases, inl, inr,
}
use smbanything.Files.State.{OpenHandle, Handles, FileState, lookup}
use smbanything.Files.State.Maps.{lookup-erase, lookup-insert_entry, lookup-KeysBelow}
use smbanything.Files.Handles.{
  insert, remove, get, resolve, clear_chain, close_tree, close_all, related_file_id,
}
use smbanything.Files.Handles.Table.{
  IsConsistent, insert-IsConsistent, clear_chain-IsConsistent, remove-IsConsistent,
  close_tree-IsConsistent, close_all-IsConsistent, lookup-retain, lookup-retain_none,
}

-- The calls that change a table.
pub data Call : Type 0 where
  opens : OpenHandle → Call
  closes : ℕ → Bool → Call
  clears_chain : Call
  closes_tree : ℕ → Call
  closes_all : Call

unfoldable pub run : (ℕ → ℕ) → Call → FileState → FileState
run grow (opens h) s = (insert grow h s).1
run grow (closes id related) s = (remove id related s).1
run grow clears_chain s = record s { handles = clear_chain s.handles }
run grow (closes_tree tree_id) s = close_tree tree_id s
run grow closes_all s = close_all s

unfoldable pub runs : (ℕ → ℕ) → List Call → FileState → FileState
unfolding run
runs grow [] s = s
runs grow (c ∷ cs) s = runs grow cs (run grow c s)

run-IsConsistent :
    (grow : ℕ → ℕ) (c : Call) (s : FileState)
    → IsConsistent s.handles
    → s.handles.next_id + 1 < 2 ^ 64
    → IsConsistent (run grow c s).handles
unfolding run
run-IsConsistent grow (opens h) s v room = insert-IsConsistent grow h s v room
run-IsConsistent grow (closes id related) s v room = remove-IsConsistent id related s v
run-IsConsistent grow clears_chain s v room = clear_chain-IsConsistent s.handles v
run-IsConsistent grow (closes_tree tree_id) s v room = close_tree-IsConsistent tree_id s v
run-IsConsistent grow closes_all s v room = close_all-IsConsistent s v

next_id-run :
    (grow : ℕ → ℕ) (c : Call) (s : FileState)
    → s.handles.next_id + 1 < 2 ^ 64
    → (run grow c s).handles.next_id ≤ s.handles.next_id + 1
unfolding run insert remove resolve clear_chain close_tree close_all
next_id-run grow (opens h) s room = omega arith
next_id-run grow (closes id related) s room = ground arith
next_id-run grow clears_chain s room = omega arith
next_id-run grow (closes_tree tree_id) s room = omega arith
next_id-run grow closes_all s room = omega arith

-- Any sequence of calls keeps a table consistent, as long as ids remain.
pub runs-IsConsistent :
    (grow : ℕ → ℕ) (cs : List Call) (s : FileState)
    → IsConsistent s.handles
    → s.handles.next_id + length cs < 2 ^ 64
    → IsConsistent (runs grow cs s).handles
unfolding runs
runs-IsConsistent grow [] s v room = v
runs-IsConsistent grow (c ∷ cs) s v room =
    runs-IsConsistent grow cs (run grow c s) (run-IsConsistent grow c s v (omega arith))
      (omega (arith, next_id-run grow c s (omega arith)))

-- In a consistent table with ids left, an opened file has an id of its own: `get` finds the handle under that id and under the
-- placeholder of its chain, the id named nothing before, and every other id names what it did.
pub insert_lem :
    (grow : ℕ → ℕ) (h : OpenHandle) (s : FileState) (j : ℕ)
    → IsConsistent s.handles
    → s.handles.next_id + 1 < 2 ^ 64
    → j ≢ s.handles.next_id
    → (get (insert grow h s).0 false (insert grow h s).1.handles ≡ some (s.handles.next_id, h))
      × (get related_file_id true (insert grow h s).1.handles ≡ some (s.handles.next_id, h))
      × (lookup s.handles.next_id s.handles.open_files ≡ none)
      × (lookup j (insert grow h s).1.handles.open_files ≡ lookup j s.handles.open_files)
unfolding insert get
insert_lem grow h s j v room ne =
    let id = s.handles.next_id in
    let m = s.handles.open_files in
    let found = lookup-insert_entry id id h m in
    (
      ground (arith, found),
      ground (arith, found),
      lookup-KeysBelow id id m v.below (omega arith),
      ground (arith, lookup-insert_entry id j h m),
    )

-- In a consistent table whose ids fit 64 bits, the placeholder names no file outside a related chain.
pub get_placeholder_unrelated :
    (hs : Handles) → IsConsistent hs → hs.next_id < 2 ^ 64 → get related_file_id false hs ≡ none
unfolding get
get_placeholder_unrelated hs v room =
    ground (arith, lookup-KeysBelow hs.next_id related_file_id hs.open_files v.below (omega arith))

abbrev pub tree_survivor : ℕ → Option OpenHandle → Option OpenHandle
tree_survivor tree_id none = none
tree_survivor tree_id (some h) = if h.tree_id == tree_id then none else some h

-- In a consistent table, disconnecting a tree closes the files opened through it and no other.
pub lookup-close_tree :
    (tree_id id : ℕ) (s : FileState)
    → IsConsistent s.handles
    → lookup id (close_tree tree_id s).handles.open_files
      ≡ tree_survivor tree_id (lookup id s.handles.open_files)
unfolding close_tree
lookup-close_tree tree_id id s v = elim (Option-cases (lookup id s.handles.open_files)) [
  | inl missing ↦ rw (missing) (lookup-retain_none tree_id id s.handles.open_files missing)
  | inr (h, found) ↦ rw found (lookup-retain tree_id id h s.handles.open_files v.distinct found)
]

-- A closed id is gone, at once and for every later request, and the others stay.
pub lookup-remove :
    (id j : ℕ) (s : FileState)
    → ((remove id false s).0 ≡ lookup id s.handles.open_files)
      × (lookup j (remove id false s).1.handles.open_files
          ≡ (if id == j then none else lookup j s.handles.open_files))
unfolding remove
lookup-remove id j s = ground (arith, lookup-erase id j s.handles.open_files)
