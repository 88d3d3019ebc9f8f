-- ===== src/Session/SetupTests.antt =====
-- Tests of `session_setup` of session.rs, and its theorems at a concrete exchange.
use smbanything.Base.{
  ℕ, ◌≡◌, refl, true, false, List, [], ◌∷◌, ◌++◌, none, some, ok, replicate, le_bytes,
}
use smbanything.Base.Text.{codes, eq_ignore_ascii_case}
use smbanything.Ntlm
use smbanything.Ntlm.RoundTrip.{IsDocumented, respond}
use smbanything.Platform.Samples.{toy}
use smbanything.Proto.Status
use smbanything.Session.Requests.{parse_session_setup}
use smbanything.Session.Setup.{
  Credentials, Drawn, accept_token, authenticated_with, session_setup, session_setup_response,
}
use smbanything.Session.Setup.Logon.{session_setup-respond}
use smbanything.Session.Spnego.{raw, find_ntlmssp, ntlmssp_signature, ntlmssp_authenticate}
use smbanything.Session.State.{SessionState, new_session}
use smbanything.Wire.Reader.{open_at_start, slice_at}

abbrev account : Credentials
account = record { user = codes "U"; password = codes "pw" }

abbrev numbers : Drawn
numbers = record { id_bytes = replicate 8 4; nonce = replicate 8 1 }

abbrev challenge : List ℕ
challenge = replicate 8 1

abbrev exported : List ℕ
exported = replicate 16 3

abbrev key_exch : ℕ
key_exch = 0x40000000

abbrev field_at : ℕ → ℕ → List ℕ
field_at len off = le_bytes 2 len ++ (le_bytes 2 len ++ le_bytes 4 off)

-- An AUTHENTICATE of the user "u", with a proof of 16 bytes, one byte behind it and a key of 16.
abbrev ntlmssp : List ℕ
ntlmssp =
    ntlmssp_signature
    ++ (le_bytes 4 3
        ++ (field_at 0 0
            ++ (field_at 17 64
                ++ (field_at 0 0
                    ++ (field_at 2 81
                        ++ (field_at 0 0
                            ++ (field_at 16 83
                                ++ (le_bytes 4 key_exch
                                    ++ (replicate 16 7 ++ (1 ∷ b'u' ∷ 0 ∷ exported))))))))))

abbrev body : List ℕ
body = le_bytes 2 25 ++ (replicate 10 0 ++ (le_bytes 2 1 ++ le_bytes 2 99))

abbrev challenged : SessionState
challenged = record (new_session 1) { negotiated = true; server_challenge = some challenge }

abbrev one : ℕ
one = 1

abbrev blob_len : ℕ
blob_len = 99

body_asks : parse_session_setup body ≡ some (one, blob_len)
unfolding parse_session_setup
body_asks = refl

blob_held : slice_at (open_at_start (0 ∷ ntlmssp)) one blob_len ≡ some ntlmssp
unfolding slice_at
blob_held = refl

ntlmssp_found : find_ntlmssp ntlmssp ≡ some (ntlmssp_authenticate, raw, ntlmssp)
unfolding find_ntlmssp
ntlmssp_found = refl

ntlmssp_parsed :
    Ntlm.parse ntlmssp
    ≡ some (respond toy (codes "pw") (codes "u") [] challenge (1 ∷ []) exported key_exch)
unfolding Ntlm.parse
ntlmssp_parsed = refl

named :
    Ntlm.is_anonymous (respond toy (codes "pw") (codes "u") [] challenge (1 ∷ []) exported key_exch)
    ≡ false
unfolding Ntlm.is_anonymous
named = refl

same_account : eq_ignore_ascii_case (codes "u") (codes "U") ≡ true
unfolding eq_ignore_ascii_case
same_account = refl

toy-IsDocumented : IsDocumented toy
toy-IsDocumented = record {
  mac_len = λ key message. refl;
  cipher_len = λ key buf. refl;
  cipher_inverse = λ key buf. refl;
}

session_setup-respond_example : session_setup toy body (0 ∷ ntlmssp) account numbers challenged ≡ (
  ok (Status.success, session_setup_response (accept_token raw)),
  authenticated_with exported (record challenged { server_challenge = none }),
)
session_setup-respond_example =
    session_setup-respond toy account body (0 ∷ ntlmssp) numbers challenged raw ntlmssp (codes "u")
      [] challenge (1 ∷ []) exported key_exch
      (one, blob_len, ntlmssp, body_asks, blob_held, ntlmssp_found) refl ntlmssp_parsed named
      same_account toy-IsDocumented refl (λ h. cc)
