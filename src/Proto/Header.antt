-- ===== src/Proto/Header.antt =====
-- The SMB2 sync header: `Header::parse`, `Header::write_response`, `write_error_body` and
-- `to_filetime` of proto.rs.
pub mod RoundTrip
use smbanything.Base.{ℕ, ◌+◌, ◌*◌, ◌-◌, ◌^◌, ◌/◌, List, [], ◌∷◌, bit_and, bit_or, same, ◌==◌, min}
use smbanything.Proto.Flags
use smbanything.Wire.Reader.{Parse, pure, check, ◌>>=◌, ◌>>◌}
use smbanything.Wire.Reader
use smbanything.Wire.Writer.{Writer, ◌▸◌}
use smbanything.Wire.Writer

abbrev pub smb2_magic : List ℕ
smb2_magic = 0xFE ∷ b'S' ∷ b'M' ∷ b'B' ∷ []

abbrev pub header_len : ℕ
header_len = 64

-- Offset of `NextCommand` within a header.
abbrev pub next_command_offset : ℕ
next_command_offset = 20

pub record Header : Type 0 where
  pub credit_charge : ℕ
  pub status : ℕ
  pub command : ℕ
  pub credits : ℕ
  pub flags : ℕ
  pub next_command : ℕ
  pub message_id : ℕ
  pub tree_id : ℕ
  pub session_id : ℕ

unfoldable pub parse : Parse Header
parse = do
  magic ← Reader.bytes 4
  check (same magic smb2_magic)
  structure_size ← Reader.u16
  check (structure_size == header_len)
  credit_charge ← Reader.u16
  status ← Reader.u32
  command ← Reader.u16
  credits ← Reader.u16
  flags ← Reader.u32
  next_command ← Reader.u32
  message_id ← Reader.u64
  Reader.skip 4
  tree_id ← Reader.u32
  session_id ← Reader.u64
  Reader.skip 16
  pure (record {
    credit_charge = credit_charge;
    status = status;
    command = command;
    credits = credits;
    flags = flags;
    next_command = next_command;
    message_id = message_id;
    tree_id = tree_id;
    session_id = session_id;
  })

unfoldable pub write_response : Header → ℕ → ℕ → ℕ → ℕ → Writer → Writer
unfolding Writer.bytes Writer.u16 Writer.u32 Writer.u64 Writer.zeros
write_response hdr status credits session_id tree_id w =
    w
    ▸ Writer.bytes smb2_magic
    ▸ Writer.u16 header_len
    ▸ Writer.u16 hdr.credit_charge
    ▸ Writer.u32 status
    ▸ Writer.u16 hdr.command
    ▸ Writer.u16 credits
    ▸ Writer.u32 (bit_or Flags.server_to_redir (bit_and hdr.flags Flags.related_operations))
    ▸ Writer.u32 0
    ▸ Writer.u64 hdr.message_id
    ▸ Writer.u32 0
    ▸ Writer.u32 tree_id
    ▸ Writer.u64 session_id
    ▸ Writer.zeros 16

unfoldable pub write_error_body : Writer → Writer
unfolding Writer.u8 Writer.u16 Writer.u32
write_error_body w = w ▸ Writer.u16 9 ▸ Writer.u8 0 ▸ Writer.u8 0 ▸ Writer.u32 0 ▸ Writer.u8 0

-- `SystemTime`, as its distance from the Unix epoch: seconds and nanoseconds after, or before.
pub data SystemTime : Type 0 where
  since_epoch : ℕ → ℕ → SystemTime
  before_epoch : SystemTime

abbrev unix_to_filetime_secs : ℕ
unix_to_filetime_secs = 11644473600

abbrev pub u64_max : ℕ
u64_max = 2 ^ 64 - 1

unfoldable pub to_filetime : SystemTime → ℕ
to_filetime (since_epoch secs nanos) =
    let secs' = min (secs + unix_to_filetime_secs) u64_max in
    min (min (secs' * 10000000) u64_max + nanos / 100) u64_max
to_filetime before_epoch = 0
