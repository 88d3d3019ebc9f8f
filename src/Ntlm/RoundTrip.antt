-- ===== src/Ntlm/RoundTrip.antt =====
-- What a client that knows the password sends, and that `verify` of ntlm.rs recovers its key.
use smbanything.Base.{
  ℕ, ◌≡◌, ◌≢◌, ◌++◌, List, some, arith, sym, ap, ◌∙◌, length, take, drop, bit_and, length-append,
  take-append_eq, drop-append_eq, inr,
}
use smbanything.Ntlm.{Authenticate, ntowf_v2, verify}
use smbanything.Ntlm.Exact.{verify_lem}
use smbanything.Ntlm.Flags
use smbanything.Platform.{Platform}

-- What the crates document: HMAC-MD5 yields 16 bytes, RC4 keeps the length and undoes itself.
pub record IsDocumented (platform : Platform) : Type 0 where
  pub mac_len : (key message : List ℕ) → length (platform.hmac_md5 key message) ≡ 16
  pub cipher_len : (key buf : List ℕ) → length (platform.rc4 key buf) ≡ length buf
  pub cipher_inverse : (key buf : List ℕ) → platform.rc4 key (platform.rc4 key buf) ≡ buf

module _ (platform : Platform) (password user domain server_challenge temp : List ℕ) where
  abbrev proof_key : List ℕ
  proof_key = ntowf_v2 platform password user domain

  abbrev proof : List ℕ
  proof = platform.hmac_md5 proof_key (server_challenge ++ temp)

  abbrev base : List ℕ
  base = platform.hmac_md5 proof_key proof

  -- MS-NLMP 3.3.2: the proof and what it was computed over, and the client's key encrypted.
  abbrev pub respond : List ℕ → ℕ → Authenticate
  respond exported flags = record {
    user = user;
    domain = domain;
    nt_response = proof ++ temp;
    encrypted_session_key = platform.rc4 base exported;
    flags = flags;
  }

  -- With key exchange, the server recovers the client's 16-byte key from the response to its own
  -- challenge under its own password, whatever the rest of the response is.
  pub verify-respond :
      (exported : List ℕ) (flags : ℕ)
      → IsDocumented platform
      → length exported ≡ 16
      → bit_and flags Flags.negotiate_key_exch ≢ 0
      → verify platform (respond exported flags) password server_challenge ≡ some exported
  verify-respond exported flags doc width exchange =
      let front : take 16 (proof ++ temp) ≡ proof =
        take-append_eq 16 proof temp (doc.mac_len proof_key (server_challenge ++ temp)) in
      let back : drop 16 (proof ++ temp) ≡ temp =
        drop-append_eq 16 proof temp (doc.mac_len proof_key (server_challenge ++ temp)) in
      let right : platform.hmac_md5 proof_key (server_challenge ++ drop 16 (proof ++ temp))
          ≡ proof =
        ap (λ t. platform.hmac_md5 proof_key (server_challenge ++ t)) back in
      (verify_lem platform (respond exported flags) password server_challenge exported).1 (
        omega (arith, length-append proof temp, doc.mac_len proof_key (server_challenge ++ temp)),
        front ∙ sym right,
        inr (
          exchange,
          doc.cipher_len base exported ∙ width,
          sym (
              ap (λ t. platform.rc4 (platform.hmac_md5 proof_key t) (platform.rc4 base exported))
                right
              ∙ doc.cipher_inverse base exported),
        ),
      )
