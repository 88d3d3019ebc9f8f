-- ===== src/Files/Close.antt =====
-- `close` of files.rs, the CLOSE command.
use smbanything.Base.{
  ℕ, Bool, List, Option, none, some, Result, ok, err, not, ◌==◌, if◌then◌else◌, bit_and,
}
use smbanything.Base.Exec.{Exec}
use smbanything.Files.Handles.{remove, release}
use smbanything.Files.Request.{parse_close}
use smbanything.Files.State.{OpenHandle, FileState}
use smbanything.Info.File.{allocation_size, file_attributes}
use smbanything.Proto.Header.{to_filetime}
use smbanything.Proto.Status
use smbanything.Wire.Writer
use smbanything.Wire.Writer.{◌▸◌, empty}

abbrev pub postquery_attrib : ℕ
postquery_attrib = 1

unfoldable pub close_response : ℕ → OpenHandle → List ℕ
close_response flags h =
    if not (bit_and flags postquery_attrib == 0)
    then (empty
        ▸ Writer.u16 60
        ▸ Writer.u16 postquery_attrib
        ▸ Writer.u32 0
        ▸ Writer.u64 (to_filetime h.info.ctime)
        ▸ Writer.u64 (to_filetime h.info.atime)
        ▸ Writer.u64 (to_filetime h.info.mtime)
        ▸ Writer.u64 (to_filetime h.info.ctime)
        ▸ Writer.u64 (allocation_size h.info.size)
        ▸ Writer.u64 h.info.size
        ▸ Writer.u32 (file_attributes h.info.kind)).buf
    else (empty ▸ Writer.u16 60 ▸ Writer.u16 0 ▸ Writer.u32 0 ▸ Writer.zeros 52).buf

-- The handle that `remove` gives is dropped when `close` returns.
abbrev close_removed : ℕ → Option OpenHandle × FileState → Result (List ℕ) × FileState
close_removed flags (none, s) = (err Status.file_closed, s)
close_removed flags (some h, s) =
    (ok (close_response flags h), record s { shared = release h s.shared })

unfoldable pub close : List ℕ → Bool → Exec FileState (List ℕ)
close body related s = elim (parse_close body) [
  | err e ↦ (err e, s)
  | ok req ↦ close_removed req.flags (remove req.file_id related s)
]
