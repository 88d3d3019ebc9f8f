-- ===== src/Session/Negotiate.antt =====
-- NEGOTIATE in session.rs, in SMB2 and as the answer to an SMB1 request.
pub mod Dialects
use smbanything.Base.{
  ℕ, zero, suc, ◌+◌, ◌*◌, Bool, true, false, not, ◌&&◌, ◌||◌, List, [], ◌∷◌, ◌++◌, Option, none,
  some, Result, ok, err, leb, ◌==◌, if◌then◌else◌, length, take, replicate, bit_or, same,
}
use smbanything.Base.Exec.{Exec}
use smbanything.Base.Text.{codes, elem}
use smbanything.Files.Read.{max_read_size}
use smbanything.Proto.Cmd
use smbanything.Proto.Flags
use smbanything.Proto.Header.{SystemTime, to_filetime, header_len, smb2_magic}
use smbanything.Proto.Status
use smbanything.Session.State.{SessionState}
use smbanything.Wire.Der.{der_tlv}
use smbanything.Wire.Reader
use smbanything.Wire.Reader.{Reader, Parse, open_at_start, ◌>>=◌, ◌>>◌}
use smbanything.Wire.Writer
use smbanything.Wire.Writer.{◌▸◌, empty}

-- The constants of proto.rs that only a session needs.
abbrev pub dialect_smb_2_1 : ℕ
dialect_smb_2_1 = 0x0210

abbrev pub dialect_wildcard : ℕ
dialect_wildcard = 0x02FF

abbrev pub signing_enabled : ℕ
signing_enabled = 0x0001

abbrev pub signing_required : ℕ
signing_required = 0x0002

abbrev pub cap_large_mtu : ℕ
cap_large_mtu = 0x00000004

abbrev pub oid_spnego : List ℕ
oid_spnego = 0x06 ∷ 0x06 ∷ 0x2B ∷ 0x06 ∷ 0x01 ∷ 0x05 ∷ 0x05 ∷ 0x02 ∷ []

abbrev pub oid_ntlmssp : List ℕ
oid_ntlmssp = 0x06 ∷ 0x0A ∷ 0x2B ∷ 0x06 ∷ 0x01 ∷ 0x04 ∷ 0x01 ∷ 0x82 ∷ 0x37 ∷ 0x02 ∷ 0x02 ∷ 0x0A ∷ []

unfoldable pub spnego_neg_token_init : List ℕ
spnego_neg_token_init =
    let mech_types = der_tlv 0x30 oid_ntlmssp in
    let mech_types_ctx = der_tlv 0xA0 mech_types in
    let inner = der_tlv 0x30 mech_types_ctx in
    let neg_ctx = der_tlv 0xA0 inner in der_tlv 0x60 (oid_spnego ++ neg_ctx)

-- `SystemTime::now()` is the argument `now`.
unfoldable pub negotiate_response_body : ℕ → List ℕ → SystemTime → SystemTime → List ℕ
negotiate_response_body dialect server_guid boot_time now =
    (empty
      ▸ Writer.u16 65
      ▸ Writer.u16 (bit_or signing_enabled signing_required)
      ▸ Writer.u16 dialect
      ▸ Writer.u16 0
      ▸ Writer.bytes server_guid
      ▸ Writer.u32 cap_large_mtu
      ▸ Writer.u32 max_read_size
      ▸ Writer.u32 max_read_size
      ▸ Writer.u32 (64 * 1024)
      ▸ Writer.u64 (to_filetime now)
      ▸ Writer.u64 (to_filetime boot_time)
      ▸ Writer.u16 (header_len + 64)
      ▸ Writer.u16 (length spnego_neg_token_init)
      ▸ Writer.u32 0
      ▸ Writer.bytes spnego_neg_token_init).buf

unfoldable pub is_smb1 : List ℕ → Bool
unfolding same
is_smb1 msg = leb 5 (length msg) && same (take 4 msg) (0xFF ∷ codes "SMB")

abbrev pub smb1_com_negotiate : ℕ
smb1_com_negotiate = 0x72

abbrev fifth_is : ℕ → List ℕ → Bool
fifth_is v (a ∷ b ∷ c ∷ d ∷ e ∷ rest) = e == v
fifth_is v _ = false

unfoldable pub is_smb1_negotiate : List ℕ → Bool
is_smb1_negotiate msg = is_smb1 msg && fifth_is smb1_com_negotiate msg

unfoldable pub smb1_negotiate_response : List ℕ → SystemTime → SystemTime → List ℕ
smb1_negotiate_response server_guid boot_time now =
    (empty
      ▸ Writer.bytes smb2_magic
      ▸ Writer.u16 header_len
      ▸ Writer.u16 0
      ▸ Writer.u32 Status.success
      ▸ Writer.u16 Cmd.negotiate
      ▸ Writer.u16 1
      ▸ Writer.u32 Flags.server_to_redir
      ▸ Writer.u32 0
      ▸ Writer.u64 0
      ▸ Writer.u32 0
      ▸ Writer.u32 0
      ▸ Writer.u64 0
      ▸ Writer.zeros 16
      ▸ Writer.bytes (negotiate_response_body dialect_wildcard server_guid boot_time now)).buf

-- The loop over the dialects: a list cut short is an error, whatever it offers.
unfoldable pub offers_2_1 : ℕ → Bool → Parse Bool
offers_2_1 zero seen = Reader.pure seen
offers_2_1 (suc count) seen = do d ← Reader.u16; offers_2_1 count (seen || d == dialect_smb_2_1)

unfoldable pub read_negotiate : Parse Bool
read_negotiate = do
  structure_size ← Reader.u16
  Reader.check (structure_size == 36)
  dialect_count ← Reader.u16
  Reader.skip 2
  Reader.skip 2
  Reader.skip 4
  Reader.skip 16
  Reader.skip 8
  offers_2_1 dialect_count false

unfoldable pub negotiate : List ℕ → List ℕ → SystemTime → SystemTime → Exec SessionState (List ℕ)
negotiate body server_guid boot_time now s = elim (read_negotiate (open_at_start body)) [
  | none ↦ (err Status.invalid_parameter, s)
  | some (offered, r) ↦
      if offered
      then (
        ok (negotiate_response_body dialect_smb_2_1 server_guid boot_time now),
        record s { negotiated = true },
      )
      else (err Status.not_supported, s)
]
