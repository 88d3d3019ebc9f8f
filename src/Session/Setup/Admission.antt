-- ===== src/Session/Setup/Admission.antt =====
-- What SESSION_SETUP does to a session in each of its outcomes.
use smbanything.Base.{
  ℕ, ◌≡◌, ◌≢◌, sym, subst, ◌⊎◌, refl, inl, inr, true, false, none, some, Result, ok, err, List,
  arith, ◌==◌, Bool-cases, Option-cases,
}
use smbanything.Base.Exec
use smbanything.Base.Exec.{Exec, ◌>>=◌}
use smbanything.Base.Text.{eq_ignore_ascii_case}
use smbanything.Ntlm
use smbanything.Ntlm.{Authenticate}
use smbanything.Platform.{Platform}
use smbanything.Proto.Status
use smbanything.Session.Requests.{parse_session_setup}
use smbanything.Session.Setup.{
  Credentials, Drawn, check_logon, accept_token, challenge_token, authenticated_with,
  issue_challenge, answer_leg, authenticate, session_setup, session_setup_response,
}
use smbanything.Session.Spnego.{
  Framing, find_ntlmssp, ntlmssp_negotiate, ntlmssp_authenticate, ntlmssp_challenge,
}
use smbanything.Session.State.{SessionState}
use smbanything.Wire.Reader.{open_at_start, slice_at}

module _ (platform : Platform) (credentials : Credentials) where
  -- An AUTHENTICATE message of the account, whose proof `verify` accepts for the challenge.
  abbrev pub Proves : List ℕ → List ℕ → List ℕ → Type 0
  Proves ntlmssp challenge key =
      (auth : Authenticate) × (Ntlm.parse ntlmssp ≡ some auth)
      × (Ntlm.is_anonymous auth ≡ false)
      × (eq_ignore_ascii_case auth.user credentials.user ≡ true)
      × (Ntlm.verify platform auth credentials.password challenge ≡ some key)

  check_logon-Proves :
      (ntlmssp challenge key : List ℕ)
      → check_logon platform ntlmssp credentials challenge ≡ some key
      → Proves ntlmssp challenge key
  unfolding check_logon
  check_logon-Proves ntlmssp challenge key h = elim (Option-cases (Ntlm.parse ntlmssp)) [
    | inl e ↦ absurd (ground (arith, e, h))
    | inr (auth, e) ↦ (auth, e, ground (arith, e, h), ground (arith, e, h), ground (arith, e, h))
  ]

  Proves-check_logon :
      (ntlmssp challenge : List ℕ)
      → check_logon platform ntlmssp credentials challenge ≡ none
      → (key : List ℕ) → Proves ntlmssp challenge key
      → ⊥
  unfolding check_logon
  Proves-check_logon ntlmssp challenge h key (auth, e, named, user, proof) =
      absurd (ground (arith, e, h, named, user, proof))

  -- The NTLMSSP message that a request carries.
  abbrev pub Carries : List ℕ → List ℕ → ℕ → Framing → List ℕ → Type 0
  Carries body message msg_type framing ntlmssp =
      (off : ℕ) × (len : ℕ) × (blob : List ℕ) × (parse_session_setup body ≡ some (off, len))
      × (slice_at (open_at_start message) off len ≡ some blob)
      × (find_ntlmssp blob ≡ some (msg_type, framing, ntlmssp))

  -- Why a request carries none: its body is malformed, its token is not inside the message, or the token
  -- holds no NTLMSSP message.
  abbrev pub CarriesNone : List ℕ → List ℕ → Type 0
  CarriesNone body message =
      (parse_session_setup body ≡ none)
      ⊎ ((off : ℕ) × (len : ℕ) × (parse_session_setup body ≡ some (off, len))
          × ((slice_at (open_at_start message) off len ≡ none)
              ⊎ ((blob : List ℕ) × (slice_at (open_at_start message) off len ≡ some blob)
                  × (find_ntlmssp blob ≡ none))))

  -- Why an AUTHENTICATE is refused: no challenge is outstanding, or it proves no key for it.
  abbrev pub ProvesNothing : List ℕ → SessionState → Type 0
  ProvesNothing ntlmssp s =
      (s.server_challenge ≡ none)
      ⊎ ((challenge : List ℕ) × (s.server_challenge ≡ some challenge)
          × ((key : List ℕ) → Proves ntlmssp challenge key → ⊥))

  -- An AUTHENTICATE that proves a key for the outstanding challenge.
  abbrev pub ProvesOutstanding : List ℕ → List ℕ → SessionState → Type 0
  ProvesOutstanding ntlmssp key s =
      (challenge : List ℕ) × (s.server_challenge ≡ some challenge) × Proves ntlmssp challenge key

  abbrev pub spent : SessionState → SessionState
  spent s = record s { server_challenge = none }

  authenticate_cases :
      (ntlmssp : List ℕ) (framing : Framing) (s : SessionState)
      → (ProvesNothing ntlmssp s
          × (authenticate platform ntlmssp framing credentials s
              ≡ (err Status.logon_failure, spent s)))
        ⊎ ((key : List ℕ) × ProvesOutstanding ntlmssp key s
            × (authenticate platform ntlmssp framing credentials s
                ≡ (ok (Status.success, accept_token framing), authenticated_with key (spent s))))
  unfolding authenticate
  authenticate_cases ntlmssp framing s = elim (Option-cases s.server_challenge) [
    | inl a ↦ inl (inl a, rw a refl)
    | inr (challenge, a) ↦
        elim (Option-cases (check_logon platform ntlmssp credentials challenge)) [
          | inl b ↦ inl (inr (challenge, a, Proves-check_logon ntlmssp challenge b), rw (a, b) refl)
          | inr (key, b) ↦
              inr (key, (challenge, a, check_logon-Proves ntlmssp challenge key b), rw (a, b) refl)
        ]
  ]

  -- What is answered to a request that carries a message, and the state after it.
  abbrev pub Leg :
      Drawn → ℕ → Framing → List ℕ → SessionState → Result (ℕ × List ℕ) × SessionState → Type 0
  Leg drawn msg_type framing ntlmssp s answer =
      ((msg_type ≡ ntlmssp_negotiate)
        × (answer ≡ (
          ok (
            Status.more_processing_required,
            session_setup_response (challenge_token framing (ntlmssp_challenge drawn.nonce)),
          ),
          issue_challenge drawn s,
        )))
      ⊎ (((msg_type ≡ ntlmssp_authenticate)
            × ProvesNothing ntlmssp s
            × (answer ≡ (err Status.logon_failure, spent s)))
          ⊎ (((key : List ℕ) × (msg_type ≡ ntlmssp_authenticate)
                × ProvesOutstanding ntlmssp key s
                × (answer ≡ (
                  ok (Status.success, session_setup_response (accept_token framing)),
                  authenticated_with key (spent s),
                )))
              ⊎ ((msg_type ≢ ntlmssp_negotiate)
                  × (msg_type ≢ ntlmssp_authenticate)
                  × (answer ≡ (err Status.invalid_parameter, s)))))

  abbrev framed : Exec SessionState (ℕ × List ℕ) → Exec SessionState (ℕ × List ℕ)
  framed leg = leg >>= λ answer. Exec.pure (answer.0, session_setup_response answer.1)

  answer_leg_cases :
      (drawn : Drawn) (msg_type : ℕ) (framing : Framing) (ntlmssp : List ℕ) (s : SessionState)
      → Leg drawn msg_type framing ntlmssp s
          (framed (answer_leg platform msg_type framing ntlmssp credentials drawn) s)
  unfolding answer_leg
  answer_leg_cases drawn msg_type framing ntlmssp s =
      elim (Bool-cases (msg_type == ntlmssp_negotiate)) [
        | inl n ↦ inl (ground arith, rw n refl)
        | inr n ↦ elim (Bool-cases (msg_type == ntlmssp_authenticate)) [
          | inl a ↦ elim (authenticate_cases ntlmssp framing s) [
            | inl (bad, e) ↦ inr (inl (ground arith, bad, rw (n, a, e) refl))
            | inr (key, proof, e) ↦ inr (inr (inl (key, ground arith, proof, rw (n, a, e) refl)))
          ]
          | inr a ↦ inr (inr (inr (ground arith, ground arith, rw (n, a) refl)))
        ]
      ]

  module _ (body message : List ℕ) (drawn : Drawn) (s : SessionState) where
    pub session_setup_cases :
        (CarriesNone body message
          × (session_setup platform body message credentials drawn s
              ≡ (err Status.invalid_parameter, s)))
        ⊎ ((msg_type : ℕ) × (framing : Framing) × (ntlmssp : List ℕ) × Carries body message msg_type
              framing ntlmssp
            × Leg drawn msg_type framing ntlmssp s
                (session_setup platform body message credentials drawn s))
    unfolding session_setup
    session_setup_cases = elim (Option-cases (parse_session_setup body)) [
      | inl a ↦ inl (inl a, rw (session_setup, a) refl)
      | inr ((off, len), a) ↦ elim (Option-cases (slice_at (open_at_start message) off len)) [
        | inl b ↦ inl (inr (off, len, a, inl b), rw (session_setup, a, b) refl)
        | inr (blob, b) ↦ elim (Option-cases (find_ntlmssp blob)) [
          | inl c ↦ inl (inr (off, len, a, inr (blob, b, c)), rw (session_setup, a, b, c) refl)
          | inr ((msg_type, framing, ntlmssp), c) ↦ inr (
            msg_type,
            framing,
            ntlmssp,
            (off, len, blob, a, b, c),
            subst (λ answer. Leg drawn msg_type framing ntlmssp s answer)
                (sym (rw (session_setup, a, b, c) refl))
                (answer_leg_cases drawn msg_type framing ntlmssp s),
          )
        ]
      ]
    ]
