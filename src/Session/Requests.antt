-- ===== src/Session/Requests.antt =====
-- The fixed fields that `tree_connect` and `session_setup` of session.rs read.
use smbanything.Base.{ℕ, List, Option, none, some, ◌==◌}
use smbanything.Wire.Reader
use smbanything.Wire.Reader.{Parse, open_at_start, ◌>>=◌, ◌>>◌}

unfoldable pub read_tree_connect : Parse (ℕ × ℕ)
read_tree_connect = do
  structure_size ← Reader.u16
  Reader.check (structure_size == 9)
  Reader.skip 2
  path_off ← Reader.u16
  path_len ← Reader.u16
  Reader.pure (path_off, path_len)

-- The path's offset and length.
unfoldable pub parse_tree_connect : List ℕ → Option (ℕ × ℕ)
unfolding read_tree_connect Reader.u16 Reader.skip Reader.take
parse_tree_connect body = elim (read_tree_connect (open_at_start body)) [
  | none ↦ none
  | some (fields, r) ↦ some fields
]

unfoldable pub read_session_setup : Parse (ℕ × ℕ)
read_session_setup = do
  structure_size ← Reader.u16
  Reader.check (structure_size == 25)
  Reader.skip 1
  Reader.skip 1
  Reader.skip 4
  Reader.skip 4
  sec_off ← Reader.u16
  sec_len ← Reader.u16
  Reader.pure (sec_off, sec_len)

-- The security buffer's offset and length.
unfoldable pub parse_session_setup : List ℕ → Option (ℕ × ℕ)
unfolding read_session_setup Reader.u16 Reader.skip Reader.take
parse_session_setup body = elim (read_session_setup (open_at_start body)) [
  | none ↦ none
  | some (fields, r) ↦ some fields
]
