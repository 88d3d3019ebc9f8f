-- ===== src/Sign/Tests.antt =====
-- Tests of sign.rs, and its theorems at concrete buffers. The MAC of the tests pads the message's
-- length to 32 bytes.
use smbanything.Base.{
  ℕ, ◌+◌, List, [], ◌∷◌, ◌++◌, ◌≡◌, ◌≢◌, ◌↔◌, refl, replicate, length, le_bytes, All,
}
use smbanything.Proto.Header.{smb2_magic}
use smbanything.Proto.Cmd
use smbanything.Sign.{pdu_extents, sign, verify, valid, unsigned, mismatch, malformed}
use smbanything.Sign.Extents.{Tiles, pdu_extents-Tiles}
use smbanything.Sign.Verify.{Passes, verify_exact}

abbrev toy_mac : List ℕ → List ℕ → List ℕ
toy_mac key pdu = le_bytes 32 (length key + length pdu)

-- A header with the given command and `NextCommand`, and a body.
abbrev pdu : ℕ → ℕ → List ℕ → List ℕ
pdu command next body =
    smb2_magic
    ++ (replicate 8 0
        ++ (le_bytes 2 command
            ++ (replicate 6 0
                ++ (le_bytes 4 next ++ (replicate 16 0 ++ (replicate 24 1 ++ body))))))

abbrev chained : List ℕ
chained = pdu Cmd.create 72 (replicate 8 7) ++ pdu Cmd.close 0 (replicate 4 9)

chained_extents : pdu_extents chained ≡ (0, 72) ∷ (72, 140) ∷ []
unfolding pdu_extents
chained_extents = refl

signed_is_valid : verify toy_mac [] (sign toy_mac [] chained) ≡ valid
unfolding verify sign
signed_is_valid = refl

unsigned_is_refused : verify toy_mac [] chained ≡ unsigned Cmd.create
unfolding verify
unsigned_is_refused = refl

wrong_key_is_refused : verify toy_mac (1 ∷ []) (sign toy_mac [] chained) ≡ mismatch Cmd.create
unfolding verify sign
wrong_key_is_refused = refl

not_smb2 : verify toy_mac [] (1 ∷ 2 ∷ []) ≡ malformed
unfolding verify
not_smb2 = refl

pdu_extents-Tiles_example : Tiles chained 0 (pdu_extents chained)
pdu_extents-Tiles_example = pdu_extents-Tiles chained

verify_exact_example :
    (verify toy_mac [] chained ≡ valid)
    ↔ ((pdu_extents chained ≢ []) × All (Passes toy_mac [] chained) (pdu_extents chained))
verify_exact_example = verify_exact toy_mac [] chained
