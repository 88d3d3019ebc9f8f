-- ===== src/Sign.antt =====
-- smbanything_core/src/smb/sign.rs: message signing, one signature for each chained PDU.
-- HMAC-SHA256 is a parameter, from a key and the message to 32 bytes.
pub mod Extents
mod Tests
pub mod Verify
use smbanything.Base.{
  ℕ, zero, suc, ◌+◌, ◌-◌, ◌^◌, List, [], ◌∷◌, ◌++◌, ◌||◌, ◌&&◌, not, Bool, true, false, bit_and,
  bit_or, ltb, ◌==◌, same, if◌then◌else◌, length, take, drop, replicate, le_bytes, le_value,
}
use smbanything.Proto.Cmd
use smbanything.Proto.Flags
use smbanything.Proto.Header.{header_len, smb2_magic}

abbrev pub signature_offset : ℕ
signature_offset = 48

abbrev pub signature_len : ℕ
signature_len = 16

-- `buf[at..at + n]` and `copy_from_slice` at a place, both inside the buffer.
abbrev pub slice : ℕ → ℕ → List ℕ → List ℕ
slice at n buf = take n (drop at buf)

abbrev pub overwrite : ℕ → List ℕ → List ℕ → List ℕ
overwrite at new buf = take at buf ++ (new ++ drop (at + length new) buf)

-- The loop of `pdu_extents`, on fuel: a round moves the offset by a header at least.
unfoldable pub extents_loop : ℕ → List ℕ → ℕ → List (ℕ × ℕ)
unfolding same
extents_loop zero buf offset = []
extents_loop (suc fuel) buf offset =
    let next = le_value (slice (offset + 20) 4 buf) in
    let more = extents_loop fuel buf (offset + next) in
    if ltb (length buf) (offset + header_len) || not (same (slice offset 4 buf) smb2_magic)
    then []
    else if next == 0
        || ltb next header_len
        || ltb (2 ^ 64 - 1) (offset + next)
        || ltb (length buf) (offset + next)
    then (offset, length buf) ∷ []
    else (offset, offset + next) ∷ more

unfoldable pub pdu_extents : List ℕ → List (ℕ × ℕ)
unfolding extents_loop
pdu_extents buf = extents_loop (length buf) buf 0

pub data Verdict : Type 0 where
  valid : Verdict
  unsigned : ℕ → Verdict
  mismatch : ℕ → Verdict
  malformed : Verdict

unfoldable pub is_valid : Verdict → Bool
is_valid valid = true
is_valid _ = false

-- The header fields that the signing code reads in place.
abbrev pub flags_at : ℕ → List ℕ → ℕ
flags_at start buf = le_value (slice (start + 16) 4 buf)

abbrev pub command_at : ℕ → List ℕ → ℕ
command_at start buf = le_value (slice (start + 12) 2 buf)

abbrev pub session_at : ℕ → List ℕ → ℕ
session_at start buf = le_value (slice (start + 40) 8 buf)

module _ (hmac_sha256 : List ℕ → List ℕ → List ℕ) where
  unfoldable pub signature : List ℕ → List ℕ → List ℕ
  signature key pdu = take signature_len (
      hmac_sha256 key (
        take signature_offset pdu
        ++ (replicate signature_len 0 ++ drop (signature_offset + signature_len) pdu)))

  -- One round of `sign`: the flag goes on before the hash.
  unfoldable pub sign_pdu : List ℕ → ℕ × ℕ → List ℕ → List ℕ
  unfolding signature
  sign_pdu key (start, end) buf =
      let flagged =
        overwrite (start + 16) (le_bytes 4 (bit_or (flags_at start buf) Flags.signed)) buf in
      overwrite (start + signature_offset) (signature key (slice start (end - start) flagged))
        flagged

  pub sign_all : List ℕ → List (ℕ × ℕ) → List ℕ → List ℕ
  sign_all key [] buf = buf
  sign_all key (e ∷ es) buf = sign_all key es (sign_pdu key e buf)

  unfoldable pub sign : List ℕ → List ℕ → List ℕ
  unfolding sign_all sign_pdu pdu_extents
  sign key buf = sign_all key (pdu_extents buf) buf

  pub verify_all : List ℕ → List ℕ → List (ℕ × ℕ) → Verdict
  verify_all key buf [] = valid
  verify_all key buf ((start, end) ∷ es) =
      let rest = verify_all key buf es in
      if bit_and (flags_at start buf) Flags.signed == 0
      then (if session_at start buf == 0 && command_at start buf == Cmd.echo
          then rest
          else unsigned (command_at start buf))
      else if same (slice (start + signature_offset) signature_len buf)
          (signature key (slice start (end - start) buf))
      then rest
      else mismatch (command_at start buf)

  abbrev verify_extents : List ℕ → List ℕ → List (ℕ × ℕ) → Verdict
  verify_extents key buf [] = malformed
  verify_extents key buf (e ∷ es) = verify_all key buf (e ∷ es)

  unfoldable pub verify : List ℕ → List ℕ → Verdict
  unfolding verify_all signature pdu_extents same
  verify key buf = verify_extents key buf (pdu_extents buf)
