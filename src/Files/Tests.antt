-- ===== src/Files/Tests.antt =====
-- Tests of files.rs, and its theorems at concrete requests and tables.
use smbanything.Base.{ℕ, ◌+◌, ◌*◌, List, [], ◌∷◌, true, false, ◌≡◌, refl, none, some, arith}
use smbanything.Base.Text.{codes}
use smbanything.Backing.{NodeInfo, synthetic_dir}
use smbanything.Files.State.{
  OpenHandle, Shared, FileState, new_handles, new_state, new_registry, lookup,
}
use smbanything.Files.Handles.{insert, get, register, invalidate_all, related_file_id}
use smbanything.Files.Handles.Table.{IsConsistent}
use smbanything.Files.Handles.Lifetime.{
  Call, opens, closes, closes_tree, runs, runs-IsConsistent, insert_lem,
}
use smbanything.Files.Handles.Invalidation.{
  IsRegistered, AllDead, invalidate_all-AllDead, register-IsRegistered,
}
use smbanything.Path.{root}
use smbanything.Proto.Header.{SystemTime, since_epoch}

abbrev pub now : SystemTime
now = since_epoch 1700000000 0

abbrev pub movies : NodeInfo
movies = synthetic_dir (codes "movies") now

-- How the tests let a vector grow.
abbrev pub double : ℕ → ℕ
double n = n * 2 + 4

abbrev pub handle_of : ℕ → OpenHandle
handle_of tree_id = record {
  tree_id = tree_id;
  path = root;
  info = movies;
  state = 0;
  dir_pos = 0;
  scanned = false;
}

abbrev pub fresh_shared : Shared
fresh_shared = record { store = []; next_address = 0; registry = new_registry }

abbrev pub fresh : FileState
fresh = record { handles = new_handles; shared = fresh_shared }

fresh-IsConsistent : IsConsistent new_handles
unfolding lookup
fresh-IsConsistent = record {
  below = tt;
  distinct = tt;
  positive = omega arith;
  no_zero = refl;
  created = λ id e. absurd cc;
}

abbrev calls : List Call
calls = opens (handle_of 3) ∷ opens (handle_of 4) ∷ closes 1 false ∷ closes_tree 4 ∷ []

runs-IsConsistent_example : IsConsistent (runs double calls fresh).handles
runs-IsConsistent_example = runs-IsConsistent double calls fresh fresh-IsConsistent (omega arith)

insert_lem_example :
    (get (insert double (handle_of 3) fresh).0 false (insert double (handle_of 3) fresh).1.handles
      ≡ some (fresh.handles.next_id, handle_of 3))
    × (get related_file_id true (insert double (handle_of 3) fresh).1.handles
        ≡ some (fresh.handles.next_id, handle_of 3))
    × (lookup fresh.handles.next_id fresh.handles.open_files ≡ none)
    × (lookup 9 (insert double (handle_of 3) fresh).1.handles.open_files
        ≡ lookup 9 fresh.handles.open_files)
insert_lem_example =
    insert_lem double (handle_of 3) fresh 9 fresh-IsConsistent (omega arith) (omega arith)

abbrev opened : FileState
opened = runs double (opens (handle_of 3) ∷ opens (handle_of 4) ∷ []) fresh

register-IsRegistered_example :
    IsRegistered (register double 0 (record fresh_shared { store = (0, new_state) ∷ [] }))
register-IsRegistered_example = register-IsRegistered double 0 fresh_shared tt

abbrev pub one_state : Shared
one_state = record {
  store = (0, new_state) ∷ [];
  next_address = 1;
  registry = record { states = 0 ∷ []; capacity = 4 };
}

invalidate_all-AllDead_example : AllDead (invalidate_all one_state).store
invalidate_all-AllDead_example = invalidate_all-AllDead one_state (refl, tt)
