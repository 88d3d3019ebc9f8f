-- ===== src/Files/Create.antt =====
-- `create` of files.rs, the CREATE command.
pub mod Admission
use smbanything.Base.{
  ℕ, ◌+◌, ◌^◌, ◌%◌, List, [], ◌∷◌, Bool, true, false, not, ◌&&◌, Option, none, some, Result, ok,
  err, ok_or, ◌==◌, if◌then◌else◌, length, bit_and,
}
use smbanything.Base.Exec
use smbanything.Base.Exec.{Exec}
use smbanything.Base.Fallible
use smbanything.Base.Fallible.{◌>>=◌, ◌>>◌}
use smbanything.Backing.{Backing, NodeInfo, is_dir}
use smbanything.Files.Disposition
use smbanything.Files.Options
use smbanything.Files.FileId.{write_file_id, max_access_tag, max_access_context, has_create_context}
use smbanything.Files.Request.{CreateRequest, parse_create}
use smbanything.Files.State.{OpenHandle, FileState, Shared, new_state, insert_entry}
use smbanything.Files.Handles
use smbanything.Info.File.{file_attributes, allocation_size}
use smbanything.Path
use smbanything.Path.{SmbPath}
use smbanything.Proto.Access
use smbanything.Proto.Header.{header_len, to_filetime}
use smbanything.Proto.Status
use smbanything.Wire.Reader.{open_at_start, slice_at}
use smbanything.Wire.Utf16.{from_utf16le}
use smbanything.Wire.Writer
use smbanything.Wire.Writer.{Writer, ◌▸◌, empty}

-- `match create_disposition`
unfoldable pub check_disposition : ℕ → Result (Unit {0})
check_disposition d =
    if d == Disposition.open_existing
    then ok tt
    else if d == Disposition.open_if
    then ok tt
    else if d == Disposition.supersede
    then err Status.media_write_protected
    else if d == Disposition.create
    then err Status.media_write_protected
    else if d == Disposition.overwrite
    then err Status.media_write_protected
    else if d == Disposition.overwrite_if
    then err Status.media_write_protected
    else err Status.invalid_parameter

abbrev pub has_any : ℕ → ℕ → Bool
has_any bits mask = not (bit_and bits mask == 0)

-- The tests on the request alone.
unfoldable pub refuse_writes : CreateRequest → Result (Unit {0})
refuse_writes req = do
  Fallible.refuse (has_any req.desired_access Access.write_bits) Status.access_denied
  check_disposition req.create_disposition
  Fallible.refuse (has_any req.create_options Options.delete_on_close) Status.media_write_protected

-- The path that the request names.
unfoldable pub request_path : CreateRequest → List ℕ → Result SmbPath
request_path req message = do
  raw_name ←
      ok_or (slice_at (open_at_start message) req.name_off req.name_len) Status.invalid_parameter
  name ← ok_or (from_utf16le raw_name) Status.object_path_syntax_bad
  Path.parse name

-- The tests on what the path names.
unfoldable pub check_node : CreateRequest → NodeInfo → Result (Unit {0})
check_node req info = do
  Fallible.refuse (not (is_dir info.kind) && has_any req.desired_access Access.execute_bits)
      Status.access_denied
  Fallible.refuse (has_any req.create_options Options.directory_file && not (is_dir info.kind))
      Status.not_a_directory
  Fallible.refuse (has_any req.create_options Options.non_directory_file && is_dir info.kind)
      Status.file_is_a_directory

-- All that `create` does before it inserts the handle: it may fail, and it changes nothing.
unfoldable pub admit : List ℕ → List ℕ → Backing → Result (CreateRequest × SmbPath × NodeInfo)
admit body message backing = do
  req ← parse_create body
  refuse_writes req
  path ← request_path req message
  info ← backing.stat path
  check_node req info
  ok (req, path, info)

unfoldable pub wants_max_access : CreateRequest → List ℕ → Bool
wants_max_access req message =
    elim (slice_at (open_at_start message) req.contexts_off req.contexts_len) [
      | none ↦ false
      | some c ↦ has_create_context c max_access_tag
    ]

-- `handles.insert(OpenHandle { … })`, with the new state at the next address of the store.
unfoldable pub insert_new : (ℕ → ℕ) → ℕ → SmbPath → NodeInfo → FileState → ℕ × FileState
insert_new grow tree_id path info s =
    let address = s.shared.next_address in
    let handle : OpenHandle = record {
      tree_id = tree_id;
      path = path;
      info = info;
      state = address;
      dir_pos = 0;
      scanned = false;
    } in
    Handles.insert grow handle (record s {
      shared = record s.shared {
        store = (address, new_state) ∷ s.shared.store;
        next_address = address + 1;
      };
    })

unfoldable pub create_response : NodeInfo → ℕ → Bool → List ℕ
create_response info file_id max_access =
    let context = max_access_context (Access.read_only (is_dir info.kind)) in
    let fixed =
      empty
      ▸ Writer.u16 89
      ▸ Writer.u8 0
      ▸ Writer.u8 0
      ▸ Writer.u32 1
      ▸ Writer.u64 (to_filetime info.ctime)
      ▸ Writer.u64 (to_filetime info.atime)
      ▸ Writer.u64 (to_filetime info.mtime)
      ▸ Writer.u64 (to_filetime info.ctime)
      ▸ Writer.u64 (allocation_size info.size)
      ▸ Writer.u64 info.size
      ▸ Writer.u32 (file_attributes info.kind)
      ▸ Writer.u32 0
      ▸ write_file_id file_id in
    if max_access
    then (fixed
        ▸ Writer.u32 (header_len + 88)
        ▸ Writer.u32 (length context)
        ▸ Writer.bytes context).buf
    else (fixed ▸ Writer.u32 0 ▸ Writer.u32 0).buf

-- `create` once the request is admitted.
unfoldable pub finish :
    (ℕ → ℕ) → List ℕ → ℕ → CreateRequest × SmbPath × NodeInfo → Exec FileState (List ℕ)
finish grow message tree_id (req, path, info) s =
    let (file_id, s') = insert_new grow tree_id path info s in
    (ok (create_response info file_id (wants_max_access req message)), s')

unfoldable pub create : (ℕ → ℕ) → List ℕ → List ℕ → Backing → ℕ → Exec FileState (List ℕ)
create grow body message backing tree_id s = elim (admit body message backing) [
  | err e ↦ (err e, s)
  | ok admitted ↦ finish grow message tree_id admitted s
]
