-- ===== src/Files/Read.antt =====
-- `read` of files.rs, the READ command. The handler runs as one step: a replacement of the contents
-- comes before it or after it.
pub mod Outcomes
pub mod Replies
use smbanything.Base.{
  ℕ, ◌+◌, ◌%◌, ◌^◌, ◌*◌, List, [], ◌∷◌, Bool, true, false, not, ◌&&◌, Option, none, some, Result,
  ok, err, ltb, ◌==◌, if◌then◌else◌, length, min,
}
use smbanything.Base.Exec
use smbanything.Base.Exec.{Exec, ◌>>=◌, ◌>>◌}
use smbanything.Base.Text.{is_empty}
use smbanything.Backing.{Backing, FileReader, is_dir}
use smbanything.Files.Handles
use smbanything.Files.Request.{ReadRequest, parse_read}
use smbanything.Files.State.{
  OpenState, OpenHandle, Shared, FileState, new_state, invalidate, lookup, insert_entry,
}
use smbanything.Proto.Header.{header_len}
use smbanything.Proto.Status
use smbanything.Wire.Writer
use smbanything.Wire.Writer.{◌▸◌, empty}

-- `MAX_READ_SIZE` of session.rs
abbrev pub max_read_size : ℕ
max_read_size = 1024 * 1024

abbrev state_or_dead : Option OpenState → OpenState
state_or_dead none = invalidate new_state
state_or_dead (some st) = st

-- The state behind a handle's `Arc`. The store has it as long as the handle is open.
unfoldable pub state_of : OpenHandle → Shared → OpenState
unfolding lookup
state_of h shared = state_or_dead (lookup h.state shared.store)

-- A write through the lock on the state's resources.
unfoldable pub set_state : OpenHandle → OpenState → FileState → FileState
set_state h st s = record s {
  shared = record s.shared { store = insert_entry h.state st s.shared.store };
}

abbrev cache_reader : OpenHandle → OpenState → Result FileReader → Exec FileState FileReader
cache_reader h st (err e) s = (err e, s)
cache_reader h st (ok reader) s = (ok reader, set_state h (record st { reader = some reader }) s)

-- Opened on the first read.
abbrev reader_from :
    Backing → OpenHandle → OpenState → Option FileReader → Exec FileState FileReader
reader_from backing h st (some reader) s = (ok reader, s)
reader_from backing h st none s = cache_reader h st (backing.open_file h.path) s

unfoldable pub reader_of : Backing → OpenHandle → Exec FileState FileReader
unfolding state_of set_state
reader_of backing h s = let st = state_of h s.shared in reader_from backing h st st.reader s

unfoldable pub read_response : List ℕ → List ℕ
read_response content =
    (empty
      ▸ Writer.u16 17
      ▸ Writer.u8 ((header_len + 16) % 2 ^ 8)
      ▸ Writer.u8 0
      ▸ Writer.u32 (length content)
      ▸ Writer.u32 0
      ▸ Writer.u32 0
      ▸ Writer.bytes content).buf

unfoldable pub read_handle : ReadRequest → Backing → OpenHandle → Exec FileState (List ℕ)
read_handle req backing h = do
  st ← Exec.gets (λ s. state_of h s.shared)
  Exec.refuse (not st.valid) Status.file_closed
  Exec.refuse (is_dir h.info.kind) Status.invalid_device_request
  reader ← reader_of backing h
  content ← Exec.lift (reader.read_at req.offset (min req.requested max_read_size))
  Exec.refuse (is_empty content && ltb 0 (min req.requested max_read_size)) Status.end_of_file
  Exec.refuse (ltb (length content % 2 ^ 32) req.minimum_count) Status.end_of_file
  Exec.pure (read_response content)

unfoldable pub read : List ℕ → Backing → Bool → Exec FileState (List ℕ)
read body backing related = do
  req ← Exec.lift (parse_read body)
  found ← Exec.gets (λ s. Handles.get req.file_id related s.handles)
  handle ← Exec.need found Status.file_closed
  read_handle req backing handle.1
