-- ===== src/Ntlm.antt =====
-- NTLMv2 of smbanything_core/src/smb/ntlm.rs: the parts of an AUTHENTICATE message and the check
-- of its response. The hashes and the cipher come from `Platform`.
pub mod Flags
pub mod Exact
pub mod RoundTrip
pub mod Tests
use smbanything.Base.{
  ℕ, ◌+◌, ◌-◌, ◌^◌, Bool, not, ◌&&◌, ◌||◌, List, [], ◌∷◌, ◌++◌, Option, none, some, ltb, leb, ◌==◌,
  if◌then◌else◌, length, take, drop, part, le_value, bit_and, same,
}
use smbanything.Base.Text.{is_empty}
use smbanything.Platform.{Platform}
use smbanything.Wire.Reader.{usize_max}
use smbanything.Wire.Utf16.{utf16le, chunk_units, decode_lossy}

-- A field descriptor: the offset and the length.
unfoldable pub field : List ℕ → ℕ → Option (ℕ × ℕ)
field buf at =
    if ltb (length buf) (at + 8)
    then none
    else some (le_value (part (at + 4) 4 buf), le_value (part at 2 buf))

-- An empty field needs no place in the message; another one lies inside it.
unfoldable pub slice : List ℕ → ℕ → Option (List ℕ)
unfolding field
slice buf at = elim (field buf at) [
  | none ↦ none
  | some (off, len) ↦
      if len == 0
      then some []
      else if ltb usize_max (off + len)
      then none
      else if ltb (length buf) (off + len)
      then none
      else some (part off len buf)
]

unfoldable pub utf16_string : List ℕ → List ℕ
unfolding chunk_units decode_lossy
utf16_string bytes = decode_lossy (chunk_units bytes)

pub record Authenticate : Type 0 where
  pub user : List ℕ
  pub domain : List ℕ
  pub nt_response : List ℕ
  pub encrypted_session_key : List ℕ
  pub flags : ℕ

infixl 5 ◌>>=◌
abbrev pub ◌>>=◌ {ℓ κ} : {A : Type ℓ} {B : Type κ} → Option A → (A → Option B) → Option B
o >>= f = elim o [ none ↦ none | some a ↦ f a ]

unfoldable pub parse_fields : List ℕ → Option Authenticate
unfolding slice utf16_string
parse_fields msg = do
  nt_response ← slice msg 20
  domain ← slice msg 28
  user ← slice msg 36
  encrypted_session_key ← slice msg 52
  some (record {
    user = utf16_string user;
    domain = utf16_string domain;
    nt_response = nt_response;
    encrypted_session_key = encrypted_session_key;
    flags = le_value (part 60 4 msg);
  })

-- `Authenticate::parse`
unfoldable pub parse : List ℕ → Option Authenticate
unfolding parse_fields
parse msg = if ltb (length msg) 64 then none else parse_fields msg

unfoldable pub is_anonymous : Authenticate → Bool
is_anonymous auth =
    not (bit_and auth.flags Flags.negotiate_anonymous == 0)
    || (is_empty auth.user && leb (length auth.nt_response) 24)

module _ (platform : Platform) where
  unfoldable pub nt_hash : List ℕ → List ℕ
  unfolding utf16le
  nt_hash password = platform.md4 (utf16le password)

  -- The user is written in capitals, the domain is not.
  unfoldable pub ntowf_v2 : List ℕ → List ℕ → List ℕ → List ℕ
  unfolding nt_hash utf16le
  ntowf_v2 password user domain =
      platform.hmac_md5 (nt_hash password) (utf16le (platform.to_uppercase user) ++ utf16le domain)

  -- The key that the exported field or the proof gives, once the proof is right.
  unfoldable pub session_key : Authenticate → List ℕ → Option (List ℕ)
  session_key auth session_base_key =
      if bit_and auth.flags Flags.negotiate_key_exch == 0
      then some session_base_key
      else if not (length auth.encrypted_session_key == 16)
      then none
      else some (platform.rc4 session_base_key auth.encrypted_session_key)

  unfoldable pub verify : Authenticate → List ℕ → List ℕ → Option (List ℕ)
  unfolding ntowf_v2 session_key
  verify auth password server_challenge =
      let proof = take 16 auth.nt_response in
      let temp = drop 16 auth.nt_response in
      let key = ntowf_v2 password auth.user auth.domain in
      let expected = platform.hmac_md5 key (server_challenge ++ temp) in
      if ltb (length auth.nt_response) 16
      then none
      else if not (same proof expected)
      then none
      else session_key auth (platform.hmac_md5 key expected)
