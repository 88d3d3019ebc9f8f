-- ===== src/Ntlm/Exact.antt =====
-- Which AUTHENTICATE messages `verify` of ntlm.rs accepts, and with which key.
use smbanything.Base.{
  ℕ, ◌≤◌, ◌≡◌, ◌≢◌, ◌⊎◌, ◌↔◌, ◌++◌, List, some, arith, length, take, drop, bit_and, Bool-cases, inl,
  inr, ◌==◌, same→eq, same_refl,
}
use smbanything.Ntlm.{Authenticate, ntowf_v2, session_key, verify}
use smbanything.Ntlm.Flags
use smbanything.Platform.{Platform}

module _ (platform : Platform) (auth : Authenticate) (password server_challenge : List ℕ) where
  abbrev pub response_key : List ℕ
  response_key = ntowf_v2 platform password auth.user auth.domain

  -- What `NTProofStr` is for this challenge.
  abbrev pub right_proof : List ℕ
  right_proof = platform.hmac_md5 response_key (server_challenge ++ drop 16 auth.nt_response)

  abbrev pub base_key : List ℕ
  base_key = platform.hmac_md5 response_key right_proof

  -- The key is the base key, or with key exchange what 16 encrypted bytes decrypt to.
  abbrev pub Exports : List ℕ → Type 0
  Exports key =
      ((bit_and auth.flags Flags.negotiate_key_exch ≡ 0) × (key ≡ base_key))
      ⊎ ((bit_and auth.flags Flags.negotiate_key_exch ≢ 0)
          × (length auth.encrypted_session_key ≡ 16)
          × (key ≡ platform.rc4 base_key auth.encrypted_session_key))

  -- A key comes out exactly when the response has its 16 bytes of proof, the proof is the MAC of
  -- this challenge and of the rest of the response under the password's key, and the key is the one
  -- exported.
  pub verify_lem :
      (key : List ℕ)
      → (verify platform auth password server_challenge ≡ some key)
        ↔ ((16 ≤ length auth.nt_response) × (take 16 auth.nt_response ≡ right_proof) × Exports key)
  unfolding verify session_key
  verify_lem key = (
    λ h. elim (Bool-cases (bit_and auth.flags Flags.negotiate_key_exch == 0)) [
      | inl z ↦ (
        ground arith,
        same→eq (take 16 auth.nt_response) right_proof (ground arith),
        inl (ground arith, ground arith),
      )
      | inr z ↦ (
        ground arith,
        same→eq (take 16 auth.nt_response) right_proof (ground arith),
        inr (ground arith, ground arith, ground arith),
      )
    ],
    λ h. ground (arith, same_refl right_proof),
  )
