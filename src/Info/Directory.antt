-- ===== src/Info/Directory.antt =====
-- The directory information classes of info.rs, and the page that QUERY_DIRECTORY returns.
mod Lengths
pub mod Page
use smbanything.Base.{
  ℕ, ◌+◌, ◌*◌, ◌-◌, ◌/◌, ◌%◌, ◌^◌, List, [], ◌∷◌, Bool, true, false, not, Option, none, some,
  Result, ok, err, refuse, ok_or, ltb, ◌==◌, length, if◌then◌else◌,
}
use smbanything.Base.Fallible.{◌>>=◌, ◌>>◌}
use smbanything.Backing.{NodeInfo}
use smbanything.Info.DirClass
use smbanything.Info.File.{write_times, file_attributes, allocation_size}
use smbanything.Proto.Status
use smbanything.Wire.Utf16.{utf16le}
use smbanything.Wire.Writer
use smbanything.Wire.Writer.{Writer, ◌▸◌, empty}

unfoldable pub dir_entry_fixed_len : ℕ → Option ℕ
dir_entry_fixed_len class =
    if class == DirClass.directory
    then some 64
    else if class == DirClass.full_directory
    then some 68
    else if class == DirClass.both_directory
    then some 94
    else if class == DirClass.names
    then some 12
    else if class == DirClass.id_both_directory
    then some 104
    else if class == DirClass.id_full_directory
    then some 80
    else none

-- What each class adds behind the common fields.
unfoldable pub class_fields : ℕ → ℕ → Writer → Result Writer
class_fields class file_id w =
    if class == DirClass.directory
    then ok w
    else if class == DirClass.full_directory
    then ok (w ▸ Writer.u32 0)
    else if class == DirClass.both_directory
    then ok (w ▸ Writer.u32 0 ▸ Writer.u8 0 ▸ Writer.u8 0 ▸ Writer.zeros 24)
    else if class == DirClass.id_both_directory
    then ok (
        w
        ▸ Writer.u32 0
        ▸ Writer.u8 0
        ▸ Writer.u8 0
        ▸ Writer.zeros 24
        ▸ Writer.u16 0
        ▸ Writer.u64 file_id)
    else if class == DirClass.id_full_directory
    then ok (w ▸ Writer.u32 0 ▸ Writer.u32 0 ▸ Writer.u64 file_id)
    else err Status.invalid_info_class

unfoldable pub write_dir_entry : ℕ → ℕ → NodeInfo → ℕ → Writer → Result Writer
write_dir_entry class index info file_id out = do
  fixed ← ok_or (dir_entry_fixed_len class) Status.invalid_info_class
  let name = utf16le info.name
  let start = length out.buf
  let common = out ▸ Writer.u32 0 ▸ Writer.u32 index
  fields ←
      if class == DirClass.names
      then ok (common ▸ Writer.u32 (length name))
      else class_fields class file_id (
          common
          ▸ write_times info
          ▸ Writer.u64 info.size
          ▸ Writer.u64 (allocation_size info.size)
          ▸ Writer.u32 (file_attributes info.kind)
          ▸ Writer.u32 (length name))
  refuse (not (length fields.buf - start == fixed)) Status.invalid_info_class
  ok (fields ▸ Writer.bytes name)

-- `usize::next_multiple_of(8)`
abbrev pub next_multiple_of_8 : ℕ → ℕ
next_multiple_of_8 n = (n + 7) / 8 * 8

-- Where an entry begins: behind the previous one, padded.
unfoldable pub entry_start : ℕ → Writer → ℕ
entry_start count out = if count == 0 then length out.buf else next_multiple_of_8 (length out.buf)

-- Pad the previous entry and link it to the one that follows. The patch lies inside the buffer; the
-- source would panic otherwise.
unfoldable pub link_previous : ℕ → ℕ → Writer → Option Writer
link_previous count last_start out =
    let padded = Writer.align_to 8 out in
    if count == 0
    then some out
    else Writer.patch_u32 last_start (length padded.buf - last_start) padded

-- `none` is the panic of a patch out of bounds.
abbrev pub PageResult : Type 0
PageResult = Option (Result (Writer × ℕ))

unfoldable pub encode_loop :
    ℕ → ℕ → ℕ → ℕ → Bool → List (NodeInfo × ℕ) → ℕ → ℕ → Writer → PageResult
encode_loop class fixed start_index max_len single [] count last_start out = some (ok (out, count))
encode_loop class fixed start_index max_len single ((info, file_id) ∷ entries) count last_start
      out =
    let start = entry_start count out in
    let more = λ (w : Writer).
      encode_loop class fixed start_index max_len single entries (count + 1) start w in
    if ltb max_len (start + fixed + length (utf16le info.name))
    then (if count == 0 then some (err Status.info_length_mismatch) else some (ok (out, count)))
    else elim (link_previous count last_start out) [
      | none ↦ none
      | some linked ↦
          elim (write_dir_entry class ((start_index + count) % 2 ^ 32) info file_id linked) [
            | err e ↦ some (err e)
            | ok w ↦ if single then some (ok (w, count + 1)) else more w
          ]
    ]

unfoldable pub encode_dir_entries : ℕ → List (NodeInfo × ℕ) → ℕ → ℕ → Bool → PageResult
encode_dir_entries class entries start_index max_len single = elim (dir_entry_fixed_len class) [
  | none ↦ some (err Status.invalid_info_class)
  | some fixed ↦ encode_loop class fixed start_index max_len single entries 0 0 empty
]
