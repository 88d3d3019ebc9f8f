-- ===== src/Session/Trees.antt =====
-- `tree_connect` of session.rs.
pub mod Bounded
pub mod Grants
pub mod Named
use smbanything.Base.{
  ℕ, ◌+◌, ◌^◌, Bool, true, false, not, ◌||◌, List, [], ◌∷◌, ◌++◌, Option, none, some, Result, ok,
  err, leb, ◌==◌, if◌then◌else◌, length,
}
use smbanything.Base.Exec
use smbanything.Base.Exec.{Exec, ◌>>=◌, ◌>>◌}
use smbanything.Base.Text.{codes, split, eq_ignore_ascii_case}
use smbanything.Files.State.{insert_entry}
use smbanything.Path.{separator}
use smbanything.Proto.Access
use smbanything.Proto.Status
use smbanything.Session.Requests.{parse_tree_connect}
use smbanything.Session.State.{TreeKind, disk, ipc, SessionState, alloc_tree_id}
use smbanything.Wire.Reader.{open_at_start, slice_at}
use smbanything.Wire.Utf16.{from_utf16le}
use smbanything.Wire.Writer
use smbanything.Wire.Writer.{◌▸◌, empty}

-- `MAX_TREES`
abbrev pub max_trees : ℕ
max_trees = 64

abbrev pub share_type_disk : ℕ
share_type_disk = 0x01

abbrev pub share_type_pipe : ℕ
share_type_pipe = 0x02

-- `path.rsplit('\\').next()`: what stands behind the last separator.
abbrev pub last_or : List ℕ → List (List ℕ) → List ℕ
last_or d [] = d
last_or d (p ∷ ps) = last_or p ps

unfoldable pub requested_share : List ℕ → List ℕ
unfolding split
requested_share path = last_or [] (split separator path)

-- The share of a request, or the pipe share.
unfoldable pub requested_kind : List ℕ → List ℕ → Option TreeKind
unfolding eq_ignore_ascii_case
requested_kind share_name requested =
    if eq_ignore_ascii_case requested share_name
    then some disk
    else if eq_ignore_ascii_case requested (codes "IPC$")
    then some ipc
    else none

-- `alloc_tree_id` and the insertion, within the bound on trees.
unfoldable pub add_tree : TreeKind → SessionState → Result ℕ × SessionState
add_tree kind s =
    if leb max_trees (length s.trees)
    then (err Status.request_not_accepted, s)
    else elim (alloc_tree_id s) [
      | none ↦ (err Status.request_not_accepted, s)
      | some (id, s') ↦ (ok id, record s' { trees = insert_entry id kind s'.trees })
    ]

abbrev share_type : TreeKind → ℕ
share_type disk = share_type_disk
share_type ipc = share_type_pipe

abbrev maximal_access : TreeKind → ℕ
maximal_access disk = Access.read_only_dir
maximal_access ipc = 0

unfoldable pub tree_connect_response : TreeKind → List ℕ
tree_connect_response kind =
    (empty
      ▸ Writer.u16 16
      ▸ Writer.u8 (share_type kind)
      ▸ Writer.u8 0
      ▸ Writer.u32 0
      ▸ Writer.u32 0
      ▸ Writer.u32 (maximal_access kind)).buf

unfoldable pub tree_connect : List ℕ → List ℕ → List ℕ → Exec SessionState (List ℕ × TreeKind × ℕ)
tree_connect body message share_name = do
  (path_off, path_len) ← Exec.need (parse_tree_connect body) Status.invalid_parameter
  raw ← Exec.need (slice_at (open_at_start message) path_off path_len) Status.invalid_parameter
  path ← Exec.need (from_utf16le raw) Status.object_path_syntax_bad
  kind ← Exec.need (requested_kind share_name (requested_share path)) Status.bad_network_name
  tree_id ← add_tree kind
  Exec.pure (tree_connect_response kind, kind, tree_id)

-- `simple_ack`
unfoldable pub simple_ack : List ℕ
simple_ack = (empty ▸ Writer.u16 4 ▸ Writer.u16 0).buf
