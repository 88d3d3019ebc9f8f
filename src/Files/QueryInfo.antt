-- ===== src/Files/QueryInfo.antt =====
-- `query_info` of files.rs, the QUERY_INFO command. It changes no state.
pub mod Truncation
use smbanything.Base.{
  ℕ, ◌+◌, ◌-◌, ◌*◌, ◌/◌, ◌%◌, ◌^◌, List, [], ◌∷◌, Bool, true, false, not, Option, none, some,
  Result, ok, err, ok_or, ltb, ◌==◌, if◌then◌else◌, length, take,
}
use smbanything.Base.Fallible
use smbanything.Base.Fallible.{◌>>=◌, ◌>>◌}
use smbanything.Backing.{Backing, NodeInfo, is_dir}
use smbanything.Files.Handles
use smbanything.Files.Read.{state_of}
use smbanything.Files.Request.{QueryInfoRequest, parse_query_info}
use smbanything.Files.State.{OpenHandle, FileState}
use smbanything.Info.File
use smbanything.Info.FileClass
use smbanything.Info.FsClass
use smbanything.Info.InfoType
use smbanything.Info.Volume
use smbanything.Path.{to_smb_absolute}
use smbanything.Path.FileId.{file_id}
use smbanything.Proto.Access
use smbanything.Proto.Header.{SystemTime, header_len}
use smbanything.Proto.Status
use smbanything.Wire.Writer
use smbanything.Wire.Writer.{◌▸◌, empty}

-- `match class` under `info_type::FILE`
unfoldable pub file_answer : (List ℕ → List ℕ) → ℕ → OpenHandle → Result (List ℕ)
file_answer to_lowercase class h =
    let path = to_smb_absolute h.path in
    let id = file_id to_lowercase h.path in
    let granted = Access.read_only (is_dir h.info.kind) in
    if class == FileClass.basic
    then ok (File.file_basic h.info)
    else if class == FileClass.standard
    then ok (File.file_standard h.info)
    else if class == FileClass.internal
    then ok (File.file_internal id)
    else if class == FileClass.ea
    then ok File.file_ea
    else if class == FileClass.access
    then ok (File.file_access granted)
    else if class == FileClass.name
    then ok (File.file_name path)
    else if class == FileClass.position
    then ok File.file_position
    else if class == FileClass.mode
    then ok File.file_mode
    else if class == FileClass.alignment
    then ok File.file_alignment
    else if class == FileClass.all
    then ok (File.file_all h.info id granted path)
    else if class == FileClass.stream
    then ok (File.file_stream h.info)
    else if class == FileClass.network_open
    then ok (File.file_network_open h.info)
    else if class == FileClass.attribute_tag
    then ok (File.file_attribute_tag h.info)
    else if class == FileClass.full_ea
    then err Status.no_eas_on_file
    else err Status.not_supported

-- `match class` under `info_type::FILESYSTEM`
unfoldable pub volume_answer : ℕ → Backing → SystemTime → ℕ → Result (List ℕ)
volume_answer class backing created serial =
    if class == FsClass.volume
    then ok (Volume.fs_volume backing.label created serial)
    else if class == FsClass.size
    then ok (Volume.fs_size backing.total_size)
    else if class == FsClass.full_size
    then ok (Volume.fs_full_size backing.total_size)
    else if class == FsClass.device
    then ok Volume.fs_device
    else if class == FsClass.attribute
    then ok Volume.fs_attribute
    else if class == FsClass.sector_size
    then ok Volume.fs_sector_size
    else err Status.not_supported

-- `match ty`
unfoldable pub answer :
    (List ℕ → List ℕ) → QueryInfoRequest → Backing → SystemTime → ℕ → OpenHandle → Result (List ℕ)
answer to_lowercase req backing created serial h =
    if req.type == InfoType.file
    then file_answer to_lowercase req.class h
    else if req.type == InfoType.filesystem
    then volume_answer req.class backing created serial
    else if req.type == InfoType.security
    then err Status.not_supported
    else if req.type == InfoType.quota
    then err Status.not_supported
    else err Status.invalid_parameter

-- The size of the class's struct, and where its trailing string starts if it has one.
unfoldable pub struct_size : ℕ → ℕ → ℕ → ℕ × Option ℕ
struct_size type class encoded =
    let fixed : ℕ × Option ℕ = (encoded, none) in
    if type == InfoType.file
    then (if class == FileClass.name
        then (8, some 4)
        else if class == FileClass.all
        then (104, some 100)
        else fixed)
    else if type == InfoType.filesystem
    then (if class == FsClass.volume
        then (24, some 18)
        else if class == FsClass.attribute
        then (16, some 12)
        else fixed)
    else fixed

-- The part of an answer that the client's buffer takes, with the status that tells it.
unfoldable pub truncate_answer : ℕ → ℕ × Option ℕ → List ℕ → Result (List ℕ × ℕ)
truncate_answer output_len (min_len, string_off) buf =
    let cut = λ (off : ℕ). off + (output_len - off) / 2 * 2 in
    if ltb output_len min_len
    then err Status.info_length_mismatch
    else if ltb output_len (length buf)
    then elim string_off [
      | none ↦ err Status.info_length_mismatch
      | some off ↦ ok (take (cut off) buf, Status.buffer_overflow)
    ]
    else ok (buf, Status.success)

unfoldable pub query_info_response : List ℕ → List ℕ
query_info_response buf =
    (empty
      ▸ Writer.u16 9
      ▸ Writer.u16 (header_len + 8)
      ▸ Writer.u32 (length buf)
      ▸ Writer.bytes buf).buf

unfoldable pub query_info :
    (List ℕ → List ℕ) → List ℕ → Backing → FileState → SystemTime → ℕ → Bool → Result (List ℕ × ℕ)
query_info to_lowercase body backing s created serial related = do
  req ← parse_query_info body
  found ← ok_or (Handles.get req.file_id related s.handles) Status.file_closed
  let h = found.1
  Fallible.refuse (not (state_of h s.shared).valid) Status.file_closed
  buf ← answer to_lowercase req backing created serial h
  reply ← truncate_answer req.output_len (struct_size req.type req.class (length buf)) buf
  ok (query_info_response reply.0, reply.1)
