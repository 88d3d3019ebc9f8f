-- ===== src/Server/Signed.antt =====
-- What a connection that holds a signing key takes up: `serve_connection` of mod.rs.
use smbanything.Base.{
  ℕ, ◌≡◌, ◌≢◌, refl, ◌⊎◌, inl, inr, true, not, List, [], some, arith, ltb, ◌==◌, if_cases, length,
  All,
}
use smbanything.Platform.{Platform}
use smbanything.Server.Invariant.{IsSound}
use smbanything.Server.Message.{handle_message}
use smbanything.Server.Serve.{Event, closed, silent, serve, finish, admitted}
use smbanything.Server.State.{Ctx, Conn, Outside}
use smbanything.Sign.{Verdict, valid, unsigned, mismatch, malformed, is_valid, verify, pdu_extents}
use smbanything.Sign.Verify.{Passes, verify_exact}
use smbanything.Wire.Nbss.{max_inbound_message}

module _ (platform : Platform) (ctx : Ctx) (outside : ℕ → Outside) (msg : List ℕ) (s : Conn) where
  valid_of : (v : Verdict) → is_valid v ≡ true → v ≡ valid
  unfolding is_valid
  valid_of valid h = refl
  valid_of (unsigned command) h = cc
  valid_of (mismatch command) h = cc
  valid_of malformed h = cc

  -- Nothing is changed and nothing sent, or every request of the message passes the check of its signature.
  abbrev pub OnlySigned : List ℕ → Event × Conn → Type 0
  OnlySigned key x =
      ((x.1 ≡ s) × ((x.0 ≡ closed) ⊎ (x.0 ≡ silent)))
      ⊎ ((pdu_extents msg ≢ [])
          × All (Passes platform.hmac_sha256 key msg) (pdu_extents msg)
          × (x ≡ finish platform (handle_message platform ctx outside msg s)))

  serve_keyed :
      (key : List ℕ)
      → s.session.signing_key ≡ some key
      → OnlySigned key (serve platform ctx outside msg s)
  unfolding serve admitted
  serve_keyed key held =
      if_cases (OnlySigned key) (length msg == 0) (λ h. inl (refl, inr refl))
        (λ h.
          if_cases (OnlySigned key) (ltb max_inbound_message (length msg))
            (λ h. inl (refl, inl refl))
            (λ h.
              if_cases (OnlySigned key) (not (admitted platform s.session.signing_key msg))
                (λ h. inl (refl, inl refl))
                (λ h.
                  let passed : is_valid (verify platform.hmac_sha256 key msg) ≡ true =
                    ground (arith, held, h) in
                  let signed = (verify_exact platform.hmac_sha256 key msg).0 (valid_of _ passed) in
                  inr (signed.0, signed.1, refl))))

  -- An authenticated connection in a sound state carries out a message only if each request in it has the signature of its own
  -- bytes under the session's key, or is an unsigned ECHO that names no session; it answers nothing else
  -- and stays as it is.
  pub serve-OnlySigned :
      IsSound s.session
      → s.session.authenticated ≡ true
      → (key : List ℕ) × (s.session.signing_key ≡ some key)
        × OnlySigned key (serve platform ctx outside msg s)
  serve-OnlySigned sound live =
      let held = sound.keyed live in (held.0, held.1, serve_keyed held.0 held.1)
