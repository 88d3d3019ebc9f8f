-- ===== src/Files/State.antt =====
-- The state behind files.rs. An `Arc<OpenState>` is an address of the shared store: the handle that
-- owns it holds the address, the registry holds it weakly, and the state is in the store as long as
-- its handle is open.
pub mod Maps
use smbanything.Base.{ℕ, Bool, true, false, List, [], ◌∷◌, Option, none, some, ◌==◌, if◌then◌else◌}
use smbanything.Backing.{NodeInfo, FileReader}
use smbanything.Path.{SmbPath}

-- `OpenState` with its `OpenResources`.
pub record OpenState : Type 0 where
  pub valid : Bool
  pub reader : Option FileReader
  pub dir_entries : Option (List (NodeInfo × ℕ))

-- `OpenState::new`
abbrev pub new_state : OpenState
new_state = record { valid = true; reader = none; dir_entries = none }

-- `OpenState::invalidate`
abbrev pub invalidate : OpenState → OpenState
invalidate s = record { valid = false; reader = none; dir_entries = none }

pub record OpenHandle : Type 0 where
  pub tree_id : ℕ
  pub path : SmbPath
  pub info : NodeInfo
  pub state : ℕ
  pub dir_pos : ℕ
  pub scanned : Bool

-- Maps by number: the table of open files and the store.
module _ {ℓ} {V : Type ℓ} where
  unfoldable pub lookup : ℕ → List (ℕ × V) → Option V
  lookup k [] = none
  lookup k ((j, v) ∷ m) = if j == k then some v else lookup k m

  unfoldable pub erase : ℕ → List (ℕ × V) → List (ℕ × V)
  erase k [] = []
  erase k ((j, v) ∷ m) = let rest = erase k m in if j == k then rest else (j, v) ∷ rest

  abbrev pub insert_entry : ℕ → V → List (ℕ × V) → List (ℕ × V)
  insert_entry k v m = (k, v) ∷ erase k m

-- `OpenRegistry`: the addresses, and the capacity of their vector.
pub record OpenRegistry : Type 0 where
  pub states : List ℕ
  pub capacity : ℕ

abbrev pub new_registry : OpenRegistry
new_registry = record { states = []; capacity = 0 }

-- What all connections of a server share: the store of open states, with the next free address,
-- and the registry.
pub record Shared : Type 0 where
  pub store : List (ℕ × OpenState)
  pub next_address : ℕ
  pub registry : OpenRegistry

-- `Handles`: the table of one connection.
pub record Handles : Type 0 where
  pub open_files : List (ℕ × OpenHandle)
  pub next_id : ℕ
  pub last_created : Option ℕ

-- `Handles::registered`
abbrev pub new_handles : Handles
new_handles = record { open_files = []; next_id = 1; last_created = none }

-- One connection's table beside what it shares.
pub record FileState : Type 0 where
  pub handles : Handles
  pub shared : Shared
