-- ===== src/Session/State.antt =====
-- `SessionState` of session.rs.
use smbanything.Base.{ℕ, ◌+◌, ◌^◌, Bool, false, List, [], Option, none, some, ltb, if◌then◌else◌}
use smbanything.Files.State.{lookup, erase}

pub data TreeKind : Type 0 where
  disk ipc : TreeKind

pub record SessionState : Type 0 where
  pub conn_id : ℕ
  pub failed_logons : ℕ
  pub negotiated : Bool
  pub session_id : ℕ
  pub authenticated : Bool
  pub server_challenge : Option (List ℕ)
  pub signing_key : Option (List ℕ)
  pub trees : List (ℕ × TreeKind)
  pub next_tree_id : ℕ

-- `SessionState::new`
abbrev pub new_session : ℕ → SessionState
new_session conn_id = record {
  conn_id = conn_id;
  failed_logons = 0;
  negotiated = false;
  session_id = 0;
  authenticated = false;
  server_challenge = none;
  signing_key = none;
  trees = [];
  next_tree_id = 0;
}

-- `checked_add` on 32 bits: at the last number there is no next one, and the state stays.
unfoldable pub alloc_tree_id : SessionState → Option (ℕ × SessionState)
alloc_tree_id s =
    let id = s.next_tree_id + 1 in
    if ltb id (2 ^ 32) then some (id, record s { next_tree_id = id }) else none

unfoldable pub tree_kind : ℕ → SessionState → Option TreeKind
unfolding lookup
tree_kind tree_id s = lookup tree_id s.trees

unfoldable pub remove_tree : ℕ → SessionState → Option TreeKind × SessionState
unfolding lookup erase
remove_tree tree_id s = (lookup tree_id s.trees, record s { trees = erase tree_id s.trees })
