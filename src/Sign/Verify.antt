-- ===== src/Sign/Verify.antt =====
-- What `verify` of sign.rs accepts.
use smbanything.Base.{
  ℕ, ◌+◌, ◌-◌, List, [], ◌∷◌, ◌≡◌, ◌≢◌, ◌⊎◌, ◌↔◌, inl, inr, refl, arith, bit_and, same→eq,
  same_refl, All, ◌==◌, Bool-cases,
}
use smbanything.Proto.Cmd
use smbanything.Proto.Flags
use smbanything.Sign.{
  valid, verify, verify_all, verify_extents, signature, pdu_extents, slice, flags_at, command_at,
  session_at, signature_offset, signature_len,
}

module _ (hmac_sha256 : List ℕ → List ℕ → List ℕ) (key : List ℕ) (buf : List ℕ) where
  -- A PDU carries the signature of its own bytes, or it is an unsigned ECHO that names no session.
  abbrev pub Passes : ℕ × ℕ → Type 0
  Passes (start, end) =
      ((bit_and (flags_at start buf) Flags.signed ≢ 0)
        × (slice (start + signature_offset) signature_len buf
            ≡ signature hmac_sha256 key (slice start (end - start) buf)))
      ⊎ ((bit_and (flags_at start buf) Flags.signed ≡ 0)
          × (session_at start buf ≡ 0)
          × (command_at start buf ≡ Cmd.echo))

  verify_all_sound : (es : List (ℕ × ℕ)) → verify_all hmac_sha256 key buf es ≡ valid → All Passes es
  unfolding verify_all
  verify_all_sound [] h = tt
  verify_all_sound ((start, end) ∷ es) h =
      let received = slice (start + signature_offset) signature_len buf in
      let expected = signature hmac_sha256 key (slice start (end - start) buf) in
      elim (Bool-cases (bit_and (flags_at start buf) Flags.signed == 0)) [
        | inl z ↦
            (inr (ground arith, ground arith, ground arith), verify_all_sound es (ground arith))
        | inr s ↦ (
          inl (ground arith, same→eq received expected (ground arith)),
          verify_all_sound es (ground arith),
        )
      ]

  verify_all_complete :
      (es : List (ℕ × ℕ)) → All Passes es → verify_all hmac_sha256 key buf es ≡ valid
  unfolding verify_all
  verify_all_complete [] h = refl
  verify_all_complete ((start, end) ∷ es) h =
      let received = slice (start + signature_offset) signature_len buf in
      ground (arith, verify_all_complete es h.1, same_refl received)

  -- A buffer is verified exactly when it holds a PDU at all and every extent passes: it carries the
  -- signature of its own bytes, or it is an unsigned ECHO that names no session.
  pub verify_exact :
      (verify hmac_sha256 key buf ≡ valid) ↔ ((pdu_extents buf ≢ []) × All Passes (pdu_extents buf))
  unfolding verify
  verify_exact = go (pdu_extents buf)
    where
      go :
          (es : List (ℕ × ℕ))
          → (verify_extents hmac_sha256 key buf es ≡ valid) ↔ ((es ≢ []) × All Passes es)
      go [] = (λ h. cc, λ h. absurd (h.0 refl))
      go (e ∷ es) =
          (λ h. (λ k. cc, verify_all_sound (e ∷ es) h), λ h. verify_all_complete (e ∷ es) h.1)
