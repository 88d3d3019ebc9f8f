-- ===== src/Session/Setup/Logon.antt =====
-- A client that knows the password gets its session: `session_setup` of session.rs.
use smbanything.Base.{ℕ, ◌≡◌, ◌≢◌, refl, true, false, List, none, some, ok, length, bit_and}
use smbanything.Base.Text.{eq_ignore_ascii_case}
use smbanything.Ntlm
use smbanything.Ntlm.Flags
use smbanything.Ntlm.RoundTrip.{IsDocumented, respond, verify-respond}
use smbanything.Platform.{Platform}
use smbanything.Proto.Status
use smbanything.Session.Setup.{
  Credentials, Drawn, accept_token, check_logon, answer_leg, authenticate, authenticated_with,
  session_setup, session_setup_response,
}
use smbanything.Session.Setup.Admission.{Carries}
use smbanything.Session.Spnego.{Framing, ntlmssp_authenticate}
use smbanything.Session.State.{SessionState}

module _ (platform : Platform) (credentials : Credentials) where
  check_logon-respond :
      (ntlmssp user domain challenge temp exported : List ℕ) (flags : ℕ)
      → Ntlm.parse ntlmssp
        ≡ some (respond platform credentials.password user domain challenge temp exported flags)
      → Ntlm.is_anonymous
          (respond platform credentials.password user domain challenge temp exported flags)
        ≡ false
      → eq_ignore_ascii_case user credentials.user ≡ true
      → IsDocumented platform
      → length exported ≡ 16
      → bit_and flags Flags.negotiate_key_exch ≢ 0
      → check_logon platform ntlmssp credentials challenge ≡ some exported
  unfolding check_logon
  check_logon-respond ntlmssp user domain challenge temp exported flags parsed named account doc
        width exchange =
      rw (check_logon, parsed, named, account)
        (verify-respond platform credentials.password user domain challenge temp exported flags doc
          width exchange)

  -- A client of the account that answers the outstanding challenge with its password, with key
  -- exchange and not as an anonymous one, is let in: whatever the state, the session is authenticated,
  -- its signing key is the 16 bytes that the client chose, and the challenge is spent.
  pub session_setup-respond :
      (body message : List ℕ) (drawn : Drawn) (s : SessionState) (framing : Framing)
      (ntlmssp user domain challenge temp exported : List ℕ) (flags : ℕ)
      → Carries platform credentials body message ntlmssp_authenticate framing ntlmssp
      → s.server_challenge ≡ some challenge
      → Ntlm.parse ntlmssp
        ≡ some (respond platform credentials.password user domain challenge temp exported flags)
      → Ntlm.is_anonymous
          (respond platform credentials.password user domain challenge temp exported flags)
        ≡ false
      → eq_ignore_ascii_case user credentials.user ≡ true
      → IsDocumented platform
      → length exported ≡ 16
      → bit_and flags Flags.negotiate_key_exch ≢ 0
      → session_setup platform body message credentials drawn s ≡ (
        ok (Status.success, session_setup_response (accept_token framing)),
        authenticated_with exported (record s { server_challenge = none }),
      )
  unfolding session_setup answer_leg authenticate
  session_setup-respond body message drawn s framing ntlmssp user domain challenge temp exported
        flags (off, len, blob, a, b, c) held parsed named account doc width exchange =
      rw
        (
          session_setup,
          a,
          b,
          c,
          held,
          check_logon-respond ntlmssp user domain challenge temp exported flags parsed named account
              doc width exchange,
        )
        refl
