-- ===== src/Pipe/Requests.antt =====
-- What the commands of srvsvc.rs read from a request's body.
use smbanything.Base.{ℕ, ◌+◌, ◌*◌, not, ◌||◌, List, none, some, Result, ok, err, ltb, ◌==◌}
use smbanything.Base.Exec
use smbanything.Base.Exec.{Exec, ◌>>=◌, ◌>>◌}
use smbanything.Proto.Status
use smbanything.Wire.Reader
use smbanything.Wire.Reader.{Reader, Parse, open_at_start}

abbrev pub pipe_file_id : ℕ
pipe_file_id = 0xFFFFFFFFFFFFFFFE

abbrev pub max_request : ℕ
max_request = 64 * 1024

-- `r.method().map_err(|_| status::INVALID_PARAMETER)?`
abbrev read_field {ℓ} : {A : Type ℓ} → Parse A → Reader → Result A × Reader
read_field p r = elim (p r) [ none ↦ (err Status.invalid_parameter, r) | some (a, r') ↦ (ok a, r') ]

abbrev structure_size : ℕ → Exec Reader (Unit {0})
structure_size n = do
  size ← read_field Reader.u16
  Exec.refuse (not (size == n)) Status.invalid_parameter

unfoldable pub check_file_id : Exec Reader (Unit {0})
check_file_id = do
  persistent ← read_field Reader.u64
  volatile ← read_field Reader.u64
  Exec.refuse (not (persistent == pipe_file_id) || not (volatile == pipe_file_id))
      Status.file_closed

-- The name's offset and length.
unfoldable pub read_create : Exec Reader (ℕ × ℕ)
read_create = do
  structure_size 57
  read_field (Reader.skip (2 + 4 + 8 + 8))
  read_field (Reader.skip 4)
  read_field (Reader.skip (4 + 4 + 4 + 4))
  name_off ← read_field Reader.u16
  name_len ← read_field Reader.u16
  Exec.pure (name_off, name_len)

unfoldable pub read_close : Exec Reader (Unit {0})
read_close = do structure_size 24; read_field (Reader.skip (2 + 4)); check_file_id

-- The data's offset and length.
unfoldable pub read_write : Exec Reader (ℕ × ℕ)
read_write = do
  structure_size 49
  data_off ← read_field Reader.u16
  len ← read_field Reader.u32
  Exec.refuse (ltb max_request len) Status.invalid_parameter
  read_field (Reader.skip 8)
  check_file_id
  Exec.pure (data_off, len)

-- The length asked for.
unfoldable pub read_read : Exec Reader ℕ
read_read = do
  structure_size 49
  read_field (Reader.skip (1 + 1))
  len ← read_field Reader.u32
  read_field (Reader.skip 8)
  check_file_id
  Exec.pure len

abbrev pub fsctl_pipe_transceive : ℕ
fsctl_pipe_transceive = 0x0011C017

-- The input's offset and length, and the room for the output.
unfoldable pub read_transceive : Exec Reader (ℕ × ℕ × ℕ)
read_transceive = do
  structure_size 57
  read_field (Reader.skip 2)
  ctl_code ← read_field Reader.u32
  Exec.refuse (not (ctl_code == fsctl_pipe_transceive)) Status.not_supported
  check_file_id
  input_off ← read_field Reader.u32
  input_len ← read_field Reader.u32
  Exec.refuse (ltb max_request input_len) Status.invalid_parameter
  read_field (Reader.skip 4)
  read_field (Reader.skip 4)
  read_field (Reader.skip 4)
  max_output ← read_field Reader.u32
  Exec.pure (input_off, input_len, max_output)

abbrev pub request_of {ℓ} : {A : Type ℓ} → (Reader → Result A × Reader) → List ℕ → Result A
request_of p body = (p (open_at_start body)).0
