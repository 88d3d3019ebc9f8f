-- ===== src/Server/Serve.antt =====
-- One round of the loop of `serve_connection` of mod.rs, once a message has been read.
use smbanything.Base.{
  ℕ, Bool, true, not, List, [], ◌∷◌, Option, none, some, ltb, leb, ◌==◌, if◌then◌else◌, length,
}
use smbanything.Platform.{Platform}
use smbanything.Server.Message.{Handled, replied, dropped, panicked, unfinished, handle_message}
use smbanything.Server.State.{Ctx, Conn, Outside, max_failed_logons}
use smbanything.Sign.{sign, verify, is_valid}
use smbanything.Wire.Nbss.{NbssHeader, nbss_header, max_inbound_message}

-- What the peer sees, and whether the connection stays.
pub data Event : Type 0 where
  closed silent : Event
  sent sent_last : NbssHeader → List ℕ → Event

-- Whether a message is taken up: with a key, only one that it verifies.
unfoldable pub admitted : Platform → Option (List ℕ) → List ℕ → Bool
unfolding verify is_valid
admitted platform none msg = true
admitted platform (some key) msg = is_valid (verify platform.hmac_sha256 key msg)

-- With a key the response is signed; the key of a session that has ended goes then.
unfoldable pub sign_reply : Platform → Option (List ℕ) → List ℕ → List ℕ
unfolding sign
sign_reply platform none resp = resp
sign_reply platform (some key) resp = sign platform.hmac_sha256 key resp

unfoldable pub drop_key : Conn → Conn
drop_key s =
    if s.session.authenticated
    then s
    else record s { session = record s.session { signing_key = none } }

abbrev pub framed : Option NbssHeader → List ℕ → Conn → Event × Conn
framed none resp s = (closed, s)
framed (some hdr) resp s =
    if leb max_failed_logons s.session.failed_logons
    then (sent_last hdr resp, s)
    else (sent hdr resp, s)

-- `resp.is_empty()` is the silence of CANCEL.
abbrev pub finish : Platform → Handled × Conn → Event × Conn
finish platform (replied [], s) = (silent, s)
finish platform (replied (b ∷ bs), s) =
    let resp = sign_reply platform s.session.signing_key (b ∷ bs) in
    framed (nbss_header (length resp)) resp (drop_key s)
finish platform (dropped, s) = (closed, s)
finish platform (panicked, s) = (closed, s)
finish platform (unfinished, s) = (closed, s)

-- An empty message is a keepalive; a long one ends the connection.
unfoldable pub serve : Platform → Ctx → (ℕ → Outside) → List ℕ → Conn → Event × Conn
unfolding admitted handle_message sign_reply drop_key nbss_header
serve platform ctx outside msg s =
    let handled = handle_message platform ctx outside msg s in
    if length msg == 0
    then (silent, s)
    else if ltb max_inbound_message (length msg)
    then (closed, s)
    else if not (admitted platform s.session.signing_key msg)
    then (closed, s)
    else finish platform handled
