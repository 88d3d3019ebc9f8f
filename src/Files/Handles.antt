-- ===== src/Files/Handles.antt =====
-- The methods of `OpenRegistry` and `Handles` in files.rs.
pub mod Table
pub mod Invalidation
pub mod Lifetime
use smbanything.Base.{
  ℕ, ◌+◌, ◌-◌, ◌%◌, ◌^◌, Bool, true, false, not, ◌&&◌, List, [], ◌∷◌, ◌++◌, Option, none, some,
  ◌==◌, if◌then◌else◌, length,
}
use smbanything.Files.State.{
  OpenState, OpenHandle, OpenRegistry, Shared, Handles, FileState, invalidate, new_registry, lookup,
  erase, insert_entry,
}

-- `RELATED_FILE_ID`
abbrev pub related_file_id : ℕ
related_file_id = 2 ^ 64 - 1

abbrev pub is_some {ℓ} : {A : Type ℓ} → Option A → Bool
is_some none = false
is_some (some a) = true

-- `strong_count() > 0`: the state still has its handle, and so its place in the store.
pub retain_alive : List (ℕ × OpenState) → List ℕ → List ℕ
retain_alive store [] = []
retain_alive store (a ∷ others) =
    let rest = retain_alive store others in if is_some (lookup a store) then a ∷ rest else rest

-- `states.push`, with the capacity that the vector then has.
abbrev push : (ℕ → ℕ) → ℕ → List ℕ → ℕ → OpenRegistry
push grow a states capacity = record {
  states = states ++ a ∷ [];
  capacity = if length states == capacity then grow capacity else capacity;
}

-- `OpenRegistry::register`
unfoldable pub register : (ℕ → ℕ) → ℕ → Shared → Shared
unfolding retain_alive lookup
register grow a shared =
    let registry = shared.registry in
    let kept =
      if length registry.states == registry.capacity
      then retain_alive shared.store registry.states
      else registry.states in
    record shared { registry = push grow a kept registry.capacity }

-- One `upgrade` and `invalidate`: an address that is gone from the store is left alone.
pub invalidate_at : ℕ → List (ℕ × OpenState) → List (ℕ × OpenState)
invalidate_at a [] = []
invalidate_at a ((b, s) ∷ store) = (b, if b == a then invalidate s else s) ∷ invalidate_at a store

pub invalidate_each : List ℕ → List (ℕ × OpenState) → List (ℕ × OpenState)
invalidate_each [] store = store
invalidate_each (a ∷ others) store = invalidate_each others (invalidate_at a store)

-- `OpenRegistry::invalidate_all`
unfoldable pub invalidate_all : Shared → Shared
unfolding invalidate_each invalidate_at
invalidate_all shared = record shared {
  store = invalidate_each shared.registry.states shared.store;
  registry = new_registry;
}

-- `Handles::insert`
unfoldable pub insert : (ℕ → ℕ) → OpenHandle → FileState → ℕ × FileState
unfolding register erase
insert grow handle s =
    let id = s.handles.next_id in
    (
      id,
      record {
        handles = record {
          open_files = insert_entry id handle s.handles.open_files;
          next_id = (id + 1) % 2 ^ 64;
          last_created = some id;
        };
        shared = register grow handle.state s.shared;
      },
    )

-- `Handles::clear_chain`
unfoldable pub clear_chain : Handles → Handles
clear_chain hs = record hs { last_created = none }

-- `Handles::resolve`
unfoldable pub resolve : ℕ → Bool → Handles → Option ℕ
resolve id related hs = if id == related_file_id && related then hs.last_created else some id

abbrev then_lookup : Option ℕ → Handles → Option (ℕ × OpenHandle)
then_lookup none hs = none
then_lookup (some id) hs = elim (lookup id hs.open_files) [ none ↦ none | some h ↦ some (id, h) ]

-- `Handles::get` and `Handles::get_mut`: the handle, with the id that it stands under.
unfoldable pub get : ℕ → Bool → Handles → Option (ℕ × OpenHandle)
unfolding resolve lookup
get id related hs = then_lookup (resolve id related hs) hs

-- A write through `get_mut`.
unfoldable pub write_handle : ℕ → OpenHandle → Handles → Handles
unfolding erase
write_handle id h hs = record hs { open_files = insert_entry id h hs.open_files }

abbrev points_at : Option ℕ → ℕ → Bool
points_at none id = false
points_at (some created) id = created == id

-- Dropping a handle releases its state.
abbrev pub release : OpenHandle → Shared → Shared
release h shared = record shared { store = erase h.state shared.store }

-- `Handles::remove` once the id is resolved; the caller drops the handle.
abbrev remove_resolved : Option ℕ → FileState → Option OpenHandle × FileState
remove_resolved none s = (none, s)
remove_resolved (some id) s = (
  lookup id s.handles.open_files,
  record s {
    handles = record s.handles {
      open_files = erase id s.handles.open_files;
      last_created = if points_at s.handles.last_created id then none else s.handles.last_created;
    };
  },
)

-- `Handles::remove`
unfoldable pub remove : ℕ → Bool → FileState → Option OpenHandle × FileState
unfolding resolve lookup erase
remove id related s = remove_resolved (resolve id related s.handles) s

-- `open.retain(|_, h| h.tree_id != tree_id)`: what stays, and the store without what is dropped.
pub retain_other_trees : ℕ → List (ℕ × OpenHandle) → List (ℕ × OpenHandle)
retain_other_trees tree_id [] = []
retain_other_trees tree_id ((id, h) ∷ m) =
    let rest = retain_other_trees tree_id m in if h.tree_id == tree_id then rest else (id, h) ∷ rest

pub release_tree : ℕ → List (ℕ × OpenHandle) → Shared → Shared
release_tree tree_id [] shared = shared
release_tree tree_id ((id, h) ∷ m) shared =
    release_tree tree_id m (if h.tree_id == tree_id then release h shared else shared)

abbrev forget_stale : Option ℕ → List (ℕ × OpenHandle) → Option ℕ
forget_stale none m = none
forget_stale (some id) m = if is_some (lookup id m) then some id else none

-- `Handles::forget_stale_last_created`
unfoldable pub forget_stale_last_created : Handles → Handles
unfolding lookup
forget_stale_last_created hs = record hs {
  last_created = forget_stale hs.last_created hs.open_files;
}

-- `Handles::close_tree`
unfoldable pub close_tree : ℕ → FileState → FileState
unfolding retain_other_trees release_tree forget_stale_last_created
close_tree tree_id s = record {
  handles =
      forget_stale_last_created
        (record s.handles { open_files = retain_other_trees tree_id s.handles.open_files });
  shared = release_tree tree_id s.handles.open_files s.shared;
}

pub release_all : List (ℕ × OpenHandle) → Shared → Shared
release_all [] shared = shared
release_all ((id, h) ∷ m) shared = release_all m (release h shared)

-- `Handles::close_all`
unfoldable pub close_all : FileState → FileState
unfolding release_all
close_all s = record {
  handles = record s.handles { open_files = []; last_created = none };
  shared = release_all s.handles.open_files s.shared;
}
