-- ===== src/Files/Request.antt =====
-- The fixed fields that the file commands of files.rs read from a request's body. Every error of
-- these reads becomes STATUS_INVALID_PARAMETER.
use smbanything.Base.{ℕ, List, none, some, Result, ok, err, ◌==◌}
use smbanything.Files.FileId.{read_file_id}
use smbanything.Proto.Status
use smbanything.Wire.Reader
use smbanything.Wire.Reader.{Parse, open_at_start, ◌>>=◌, ◌>>◌}

abbrev parsed {ℓ} : {A : Type ℓ} → Parse A → List ℕ → Result A
parsed p body = elim (p (open_at_start body)) [
  | none ↦ err Status.invalid_parameter
  | some (a, r) ↦ ok a
]

pub record CreateRequest : Type 0 where
  pub desired_access : ℕ
  pub create_disposition : ℕ
  pub create_options : ℕ
  pub name_off : ℕ
  pub name_len : ℕ
  pub contexts_off : ℕ
  pub contexts_len : ℕ

unfoldable pub read_create : Parse CreateRequest
read_create = do
  size ← Reader.u16
  Reader.check (size == 57)
  Reader.skip 1
  Reader.skip 1
  Reader.skip 4
  Reader.skip 8
  Reader.skip 8
  desired_access ← Reader.u32
  Reader.skip 4
  Reader.skip 4
  create_disposition ← Reader.u32
  create_options ← Reader.u32
  name_off ← Reader.u16
  name_len ← Reader.u16
  contexts_off ← Reader.u32
  contexts_len ← Reader.u32
  Reader.pure (record {
    desired_access = desired_access;
    create_disposition = create_disposition;
    create_options = create_options;
    name_off = name_off;
    name_len = name_len;
    contexts_off = contexts_off;
    contexts_len = contexts_len;
  })

unfoldable pub parse_create : List ℕ → Result CreateRequest
unfolding read_create Reader.u16 Reader.u32 Reader.skip Reader.take
parse_create body = parsed read_create body

pub record CloseRequest : Type 0 where
  pub flags : ℕ
  pub file_id : ℕ

unfoldable pub read_close : Parse CloseRequest
read_close = do
  size ← Reader.u16
  Reader.check (size == 24)
  flags ← Reader.u16
  Reader.skip 4
  file_id ← read_file_id
  Reader.pure (record { flags = flags; file_id = file_id })

unfoldable pub parse_close : List ℕ → Result CloseRequest
unfolding read_close Reader.u16 Reader.u32 Reader.skip Reader.take Reader.u64 read_file_id
parse_close body = parsed read_close body

pub record ReadRequest : Type 0 where
  pub requested : ℕ
  pub offset : ℕ
  pub file_id : ℕ
  pub minimum_count : ℕ

unfoldable pub read_read : Parse ReadRequest
read_read = do
  size ← Reader.u16
  Reader.check (size == 49)
  Reader.skip 1
  Reader.skip 1
  requested ← Reader.u32
  offset ← Reader.u64
  file_id ← read_file_id
  minimum_count ← Reader.u32
  Reader.pure (record {
    requested = requested;
    offset = offset;
    file_id = file_id;
    minimum_count = minimum_count;
  })

unfoldable pub parse_read : List ℕ → Result ReadRequest
unfolding read_read Reader.u16 Reader.u32 Reader.skip Reader.take Reader.u64 read_file_id
parse_read body = parsed read_read body

pub record QueryDirectoryRequest : Type 0 where
  pub class : ℕ
  pub flags : ℕ
  pub file_id : ℕ
  pub pattern_off : ℕ
  pub pattern_len : ℕ
  pub output_len : ℕ

unfoldable pub read_query_directory : Parse QueryDirectoryRequest
read_query_directory = do
  size ← Reader.u16
  Reader.check (size == 33)
  class ← Reader.u8
  flags ← Reader.u8
  Reader.skip 4
  file_id ← read_file_id
  pattern_off ← Reader.u16
  pattern_len ← Reader.u16
  output_len ← Reader.u32
  Reader.pure (record {
    class = class;
    flags = flags;
    file_id = file_id;
    pattern_off = pattern_off;
    pattern_len = pattern_len;
    output_len = output_len;
  })

unfoldable pub parse_query_directory : List ℕ → Result QueryDirectoryRequest
unfolding read_query_directory Reader.u16 Reader.u32 Reader.skip Reader.take Reader.u8 Reader.u64
    read_file_id
parse_query_directory body = parsed read_query_directory body

pub record QueryInfoRequest : Type 0 where
  pub type : ℕ
  pub class : ℕ
  pub output_len : ℕ
  pub file_id : ℕ

unfoldable pub read_query_info : Parse QueryInfoRequest
read_query_info = do
  size ← Reader.u16
  Reader.check (size == 41)
  type ← Reader.u8
  class ← Reader.u8
  output_len ← Reader.u32
  Reader.skip 2
  Reader.skip 2
  Reader.skip 4
  Reader.skip 4
  Reader.skip 4
  file_id ← read_file_id
  Reader.pure (record { type = type; class = class; output_len = output_len; file_id = file_id })

unfoldable pub parse_query_info : List ℕ → Result QueryInfoRequest
unfolding read_query_info Reader.u16 Reader.u32 Reader.skip Reader.take Reader.u8 Reader.u64
    read_file_id
parse_query_info body = parsed read_query_info body
