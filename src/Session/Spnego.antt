-- ===== src/Session/Spnego.antt =====
-- The security tokens of session.rs: the SPNEGO answers, the NTLMSSP CHALLENGE, and the search
-- for the client's NTLMSSP message.
use smbanything.Base.{
  ℕ, zero, suc, ◌+◌, List, [], ◌∷◌, ◌++◌, Option, none, some, ltb, if◌then◌else◌, length, take,
  drop, le_bytes, le_value, bit_or, same,
}
use smbanything.Base.Text.{codes}
use smbanything.Ntlm.Flags
use smbanything.Session.Negotiate.{oid_ntlmssp}
use smbanything.Wire.Der.{der_tlv}
use smbanything.Wire.Utf16.{utf16le}
use smbanything.Wire.Writer
use smbanything.Wire.Writer.{◌▸◌, empty}

abbrev pub ntlmssp_signature : List ℕ
ntlmssp_signature = b'N' ∷ b'T' ∷ b'L' ∷ b'M' ∷ b'S' ∷ b'S' ∷ b'P' ∷ 0 ∷ []

abbrev pub ntlmssp_negotiate : ℕ
ntlmssp_negotiate = 1

abbrev pub ntlmssp_authenticate : ℕ
ntlmssp_authenticate = 3

abbrev pub server_name : List ℕ
server_name = codes "SMBANYTHING"

unfoldable pub spnego_challenge : List ℕ → List ℕ
spnego_challenge ntlmssp =
    let inner =
      der_tlv 0xA0 (0x0A ∷ 0x01 ∷ 0x01 ∷ [])
      ++ (der_tlv 0xA1 oid_ntlmssp ++ der_tlv 0xA2 (der_tlv 0x04 ntlmssp)) in
    der_tlv 0xA1 (der_tlv 0x30 inner)

unfoldable pub spnego_accept : List ℕ
spnego_accept = der_tlv 0xA1 (der_tlv 0x30 (der_tlv 0xA0 (0x0A ∷ 0x01 ∷ 0x00 ∷ [])))

pub data Framing : Type 0 where
  raw spnego : Framing

-- `windows(8).position(..)`: where the signature first stands.
unfoldable pub signature_position : List ℕ → Option ℕ
unfolding same
signature_position [] = none
signature_position (b ∷ blob) =
    let later = signature_position blob in
    if same (take 8 (b ∷ blob)) ntlmssp_signature
    then some 0
    else elim later [ none ↦ none | some n ↦ some (suc n) ]

abbrev framing_at : ℕ → Framing
framing_at zero = raw
framing_at (suc n) = spnego

-- The message's type, how it is framed, and the message.
unfoldable pub find_ntlmssp : List ℕ → Option (ℕ × Framing × List ℕ)
unfolding signature_position
find_ntlmssp blob = elim (signature_position blob) [
  | none ↦ none
  | some start ↦
      let msg = drop start blob in
      if ltb (length msg) 12
      then none
      else some (le_value (take 4 (drop 8 msg)), framing_at start, msg)
]

abbrev pub challenge_flags : ℕ
challenge_flags = bit_or Flags.negotiate_unicode (
    bit_or Flags.request_target (
      bit_or Flags.negotiate_ntlm (
        bit_or Flags.negotiate_always_sign (
          bit_or Flags.target_type_server (
            bit_or Flags.extended_sessionsecurity (
              bit_or Flags.negotiate_target_info (
                bit_or Flags.negotiate_128 (
                  bit_or Flags.negotiate_56
                    (bit_or Flags.negotiate_key_exch Flags.negotiate_sign)))))))))

abbrev av_pair : ℕ → List ℕ → List ℕ
av_pair id value = le_bytes 2 id ++ (le_bytes 2 (length value) ++ value)

abbrev pub target_name : List ℕ
unfolding utf16le
target_name = utf16le server_name

abbrev pub target_info : List ℕ
target_info = av_pair 2 target_name ++ (av_pair 1 target_name ++ (le_bytes 2 0 ++ le_bytes 2 0))

abbrev fixed : ℕ
fixed = 56

unfoldable pub ntlmssp_challenge : List ℕ → List ℕ
ntlmssp_challenge nonce =
    (empty
      ▸ Writer.bytes ntlmssp_signature
      ▸ Writer.u32 2
      ▸ Writer.u16 (length target_name)
      ▸ Writer.u16 (length target_name)
      ▸ Writer.u32 fixed
      ▸ Writer.u32 challenge_flags
      ▸ Writer.bytes nonce
      ▸ Writer.zeros 8
      ▸ Writer.u16 (length target_info)
      ▸ Writer.u16 (length target_info)
      ▸ Writer.u32 (fixed + length target_name)
      ▸ Writer.zeros 8
      ▸ Writer.bytes target_name
      ▸ Writer.bytes target_info).buf
