-- ===== src/Pipe.antt =====
-- smbanything_core/src/smb/srvsvc.rs: the pipe of share enumeration, its commands and its state.
-- A command has the pipe as its state, `none` while none is open.
pub mod Requests
pub mod Constants
pub mod Contexts
pub mod Rpc
pub mod Share
pub mod Reply
pub mod Dispatch
pub mod Drain
pub mod Bind
pub mod Tests
use smbanything.Base.{
  ℕ, ◌+◌, ◌*◌, Bool, true, false, not, List, [], ◌∷◌, ◌++◌, Option, none, some, Result, ok, err,
  ok_or, ltb, ◌==◌, if◌then◌else◌, length, take, drop, min,
}
use smbanything.Base.Exec
use smbanything.Base.Exec.{Exec, ◌>>=◌, ◌>>◌}
use smbanything.Base.Text.{codes, eq_ignore_ascii_case, is_empty}
use smbanything.Pipe.Requests.{
  pipe_file_id, request_of, read_create, read_close, read_write, read_read, read_transceive,
  fsctl_pipe_transceive,
}
use smbanything.Pipe.Rpc.{dispatch}
use smbanything.Proto.Header.{header_len}
use smbanything.Proto.Status
use smbanything.Wire.Reader
use smbanything.Wire.Reader.{Reader, Parse, open_at_start, slice_at}
use smbanything.Wire.Utf16.{from_utf16le}
use smbanything.Wire.Writer
use smbanything.Wire.Writer.{◌▸◌, empty}

abbrev pub pipe_name : List ℕ
pipe_name = codes "srvsvc"

pub record Pipe : Type 0 where
  pub pending : List ℕ

-- `pipe.as_mut().ok_or(status::FILE_CLOSED)?`
abbrev open_pipe : Exec (Option Pipe) Pipe
open_pipe pipe = (ok_or pipe Status.file_closed, pipe)

unfoldable pub create_response : List ℕ
create_response =
    (empty
      ▸ Writer.u16 89
      ▸ Writer.u8 0
      ▸ Writer.u8 0
      ▸ Writer.u32 1
      ▸ Writer.u64 0
      ▸ Writer.u64 0
      ▸ Writer.u64 0
      ▸ Writer.u64 0
      ▸ Writer.u64 0
      ▸ Writer.u64 0
      ▸ Writer.u32 0x00000080
      ▸ Writer.u32 0
      ▸ Writer.u64 pipe_file_id
      ▸ Writer.u64 pipe_file_id
      ▸ Writer.u32 0
      ▸ Writer.u32 0).buf

unfoldable pub create : List ℕ → List ℕ → Exec (Option Pipe) (List ℕ)
create body message = do
  (name_off, name_len) ← Exec.lift (request_of read_create body)
  raw ← Exec.need (slice_at (open_at_start message) name_off name_len) Status.invalid_parameter
  name ← Exec.need (from_utf16le raw) Status.object_name_not_found
  Exec.refuse (not (eq_ignore_ascii_case name pipe_name)) Status.object_name_not_found
  already ← Exec.gets is_open
  Exec.refuse already Status.object_name_collision
  Exec.modify (λ pipe. some (record { pending = [] }))
  Exec.pure create_response
  where
    is_open : Option Pipe → Bool
    is_open none = false
    is_open (some pipe) = true

unfoldable pub close_response : List ℕ
close_response =
    (empty ▸ Writer.u16 60 ▸ Writer.u16 0 ▸ Writer.u32 0 ▸ Writer.zeros (8 * 6 + 4)).buf

-- The pipe is taken: it is closed whether or not it was open.
unfoldable pub close : List ℕ → Exec (Option Pipe) (List ℕ)
close body = do
  Exec.lift (request_of read_close body)
  open_pipe
  Exec.modify (λ pipe. none)
  Exec.pure close_response

unfoldable pub write_response : ℕ → List ℕ
write_response len =
    (empty
      ▸ Writer.u16 17
      ▸ Writer.u16 0
      ▸ Writer.u32 len
      ▸ Writer.u32 0
      ▸ Writer.u16 0
      ▸ Writer.u16 0).buf

-- The reply is queued, in the place of what was pending.
unfoldable pub write : List ℕ → List ℕ → List ℕ → Exec (Option Pipe) (List ℕ)
write body message share_name = do
  open_pipe
  (data_off, len) ← Exec.lift (request_of read_write body)
  sent ← Exec.need (slice_at (open_at_start message) data_off len) Status.invalid_parameter
  Exec.modify (λ pipe. some (record { pending = dispatch sent share_name }))
  Exec.pure (write_response len)

unfoldable pub read_response : List ℕ → List ℕ → List ℕ
read_response sent pending =
    (empty
      ▸ Writer.u16 17
      ▸ Writer.u8 (header_len + 16)
      ▸ Writer.u8 0
      ▸ Writer.u32 (length sent)
      ▸ Writer.u32 (length pending)
      ▸ Writer.u32 0
      ▸ Writer.bytes sent).buf

unfoldable pub read : List ℕ → Exec (Option Pipe) (List ℕ)
read body = do
  pipe ← open_pipe
  len ← Exec.lift (request_of read_read body)
  Exec.refuse (len == 0) Status.invalid_parameter
  Exec.refuse (is_empty pipe.pending) Status.end_of_file
  let taken = min len (length pipe.pending)
  Exec.modify (λ p. some (record { pending = drop taken pipe.pending }))
  Exec.pure (read_response (take taken pipe.pending) (drop taken pipe.pending))

unfoldable pub transceive_response : List ℕ → List ℕ
transceive_response output =
    (empty
      ▸ Writer.u16 49
      ▸ Writer.u16 0
      ▸ Writer.u32 fsctl_pipe_transceive
      ▸ Writer.u64 pipe_file_id
      ▸ Writer.u64 pipe_file_id
      ▸ Writer.u32 0
      ▸ Writer.u32 0
      ▸ Writer.u32 (header_len + 48)
      ▸ Writer.u32 (length output)
      ▸ Writer.u32 0
      ▸ Writer.u32 0
      ▸ Writer.bytes output).buf

-- What does not fit in the client's buffer stays pending, and the status says so.
unfoldable pub answer_transceive : List ℕ → ℕ → Exec (Option Pipe) (List ℕ × ℕ)
answer_transceive output max_output pipe =
    if ltb max_output (length output)
    then (
      ok (transceive_response (take max_output output), Status.buffer_overflow),
      some (record { pending = drop max_output output }),
    )
    else (ok (transceive_response output, Status.success), some (record { pending = [] }))

unfoldable pub transceive : List ℕ → List ℕ → List ℕ → Exec (Option Pipe) (List ℕ × ℕ)
unfolding answer_transceive
transceive body message share_name = do
  open_pipe
  (input_off, input_len, max_output) ← Exec.lift (request_of read_transceive body)
  input ← Exec.need (slice_at (open_at_start message) input_off input_len) Status.invalid_parameter
  answer_transceive (dispatch input share_name) max_output
