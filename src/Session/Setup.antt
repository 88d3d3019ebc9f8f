-- ===== src/Session/Setup.antt =====
-- `session_setup` of session.rs. The numbers that it draws are arguments.
pub mod Admission
pub mod Logon
use smbanything.Base.{
  ℕ, ◌+◌, ◌^◌, Bool, true, false, not, List, [], ◌∷◌, ◌++◌, Option, none, some, Result, ok, err,
  ok_or, ltb, ◌==◌, if◌then◌else◌, length, le_value, bit_or,
}
use smbanything.Base.Exec
use smbanything.Base.Exec.{Exec, ◌>>=◌, ◌>>◌}
use smbanything.Base.Text.{eq_ignore_ascii_case}
use smbanything.Ntlm
use smbanything.Ntlm.{Authenticate}
use smbanything.Platform.{Platform}
use smbanything.Proto.Header.{header_len}
use smbanything.Proto.Status
use smbanything.Session.Requests.{parse_session_setup}
use smbanything.Session.Spnego.{
  Framing, raw, spnego, find_ntlmssp, ntlmssp_negotiate, ntlmssp_authenticate, ntlmssp_challenge,
  spnego_challenge, spnego_accept,
}
use smbanything.Session.State.{SessionState}
use smbanything.Wire.Reader
use smbanything.Wire.Reader.{open_at_start, slice_at}
use smbanything.Wire.Writer
use smbanything.Wire.Writer.{◌▸◌, empty}

pub record Credentials : Type 0 where
  pub user : List ℕ
  pub password : List ℕ

-- What `rand::random` yields in one call: 8 bytes for the session and 8 for the challenge.
pub record Drawn : Type 0 where
  pub id_bytes : List ℕ
  pub nonce : List ℕ

abbrev pub challenge_token : Framing → List ℕ → List ℕ
challenge_token raw challenge = challenge
challenge_token spnego challenge = spnego_challenge challenge

abbrev pub accept_token : Framing → List ℕ
accept_token raw = []
accept_token spnego = spnego_accept

-- A session that has a number keeps it; the challenge is a new one.
unfoldable pub issue_challenge : Drawn → SessionState → SessionState
issue_challenge drawn s =
    let id = if s.session_id == 0 then bit_or (le_value drawn.id_bytes) 1 else s.session_id in
    record s { session_id = id; server_challenge = some drawn.nonce }

-- `server_challenge.take()`: the challenge is spent before anything can fail.
unfoldable pub take_challenge : Exec SessionState (List ℕ)
take_challenge s =
    (ok_or s.server_challenge Status.logon_failure, record s { server_challenge = none })

-- The checks of an AUTHENTICATE, and the key that it yields.
unfoldable pub check_logon : Platform → List ℕ → Credentials → List ℕ → Option (List ℕ)
check_logon platform ntlmssp credentials challenge = elim (Ntlm.parse ntlmssp) [
  | none ↦ none
  | some auth ↦
      if Ntlm.is_anonymous auth
      then none
      else if not (eq_ignore_ascii_case auth.user credentials.user)
      then none
      else Ntlm.verify platform auth credentials.password challenge
]

abbrev pub authenticated_with : List ℕ → SessionState → SessionState
authenticated_with key s = record s { signing_key = some key; authenticated = true }

unfoldable pub authenticate :
    Platform → List ℕ → Framing → Credentials → Exec SessionState (ℕ × List ℕ)
unfolding take_challenge
authenticate platform ntlmssp framing credentials = do
  challenge ← take_challenge
  key ← Exec.need (check_logon platform ntlmssp credentials challenge) Status.logon_failure
  Exec.modify (authenticated_with key)
  Exec.pure (Status.success, accept_token framing)

unfoldable pub answer_leg :
    Platform → ℕ → Framing → List ℕ → Credentials → Drawn → Exec SessionState (ℕ × List ℕ)
unfolding issue_challenge authenticate
answer_leg platform msg_type framing ntlmssp credentials drawn =
    if msg_type == ntlmssp_negotiate
    then (Exec.modify (issue_challenge drawn)
        >> Exec.pure (
          Status.more_processing_required,
          challenge_token framing (ntlmssp_challenge drawn.nonce),
        ))
    else if msg_type == ntlmssp_authenticate
    then authenticate platform ntlmssp framing credentials
    else Exec.raise Status.invalid_parameter

-- SessionFlags is 0 on both legs.
unfoldable pub session_setup_response : List ℕ → List ℕ
session_setup_response token =
    (empty
      ▸ Writer.u16 9
      ▸ Writer.u16 0
      ▸ Writer.u16 (header_len + 8)
      ▸ Writer.u16 (length token)
      ▸ Writer.bytes token).buf

-- The status and the body.
unfoldable pub session_setup :
    Platform → List ℕ → List ℕ → Credentials → Drawn → Exec SessionState (ℕ × List ℕ)
unfolding answer_leg
session_setup platform body message credentials drawn = do
  (sec_off, sec_len) ← Exec.need (parse_session_setup body) Status.invalid_parameter
  blob ← Exec.need (slice_at (open_at_start message) sec_off sec_len) Status.invalid_parameter
  (msg_type, framing, ntlmssp) ← Exec.need (find_ntlmssp blob) Status.invalid_parameter
  (resp_status, token) ← answer_leg platform msg_type framing ntlmssp credentials drawn
  Exec.pure (resp_status, session_setup_response token)
