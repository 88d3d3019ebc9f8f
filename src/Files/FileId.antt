-- ===== src/Files/FileId.antt =====
-- The 16-byte file ids of requests and responses, and the chain of create contexts of files.rs.
use smbanything.Base.{
  ℕ, zero, suc, ◌+◌, ◌≤◌, ◌≡◌, refl, List, Bool, true, false, ◌&&◌, arith, ltb, leb, ◌==◌,
  if◌then◌else◌, length, take, drop, same, le_value, Bool-cases, inl, inr, length-drop,
}
use smbanything.Base.Text.{codes}
use smbanything.Files.Handles.{related_file_id}
use smbanything.Proto.Status
use smbanything.Wire.Reader
use smbanything.Wire.Reader.{Parse, ◌>>=◌, ◌>>◌}
use smbanything.Wire.Writer
use smbanything.Wire.Writer.{Writer, ◌▸◌, empty}

unfoldable pub read_file_id : Parse ℕ
read_file_id = do
  persistent ← Reader.u64
  volatile ← Reader.u64
  Reader.pure (
      if persistent == related_file_id && volatile == related_file_id
      then related_file_id
      else volatile)

unfoldable pub write_file_id : ℕ → Writer → Writer
write_file_id id w = w ▸ Writer.u64 id ▸ Writer.u64 id

-- `MAX_ACCESS_TAG`
abbrev pub max_access_tag : List ℕ
max_access_tag = codes "MxAc"

-- The name of a record, compared with the tag; a name that runs past the record's end is none.
abbrev names_tag : List ℕ → List ℕ → Bool
names_tag rec tag =
    let name_off = le_value (take 2 (drop 4 rec)) in
    let name_len = le_value (take 2 (drop 6 rec)) in
    leb (name_off + name_len) (length rec) && same (take name_len (drop name_off rec)) tag

-- The loop of `has_create_context`, on fuel. An `at` past the buffer leaves an empty rest, which the
-- test of the length refuses as the source's `get` does.
unfoldable pub context_loop : ℕ → List ℕ → List ℕ → ℕ → Bool
context_loop zero buf tag at = false
context_loop (suc fuel) buf tag at =
    let rec = drop at buf in
    let next = le_value (take 4 rec) in
    let more = context_loop fuel buf tag (at + next) in
    if ltb (length rec) 16
    then false
    else if names_tag rec tag
    then true
    else if ltb next 16
    then false
    else more

unfoldable pub has_create_context : List ℕ → List ℕ → Bool
unfolding context_loop
has_create_context buf tag = context_loop (length buf) buf tag 0

unfoldable pub max_access_context : ℕ → List ℕ
max_access_context granted =
    (empty
      ▸ Writer.u32 0
      ▸ Writer.u16 16
      ▸ Writer.u16 4
      ▸ Writer.u16 0
      ▸ Writer.u16 24
      ▸ Writer.u32 8
      ▸ Writer.bytes max_access_tag
      ▸ Writer.zeros 4
      ▸ Writer.u32 Status.success
      ▸ Writer.u32 granted).buf

-- The chain of create contexts ends: fuel that reaches the end of the buffer is enough, and more of
-- it changes nothing, whatever the distances in the chain are.
pub context_loop_enough :
    (f g : ℕ) (buf tag : List ℕ) (at : ℕ)
    → length buf ≤ at + f
    → length buf ≤ at + g
    → context_loop f buf tag at ≡ context_loop g buf tag at
unfolding context_loop
context_loop_enough zero zero buf tag at p q = refl
context_loop_enough zero (suc g) buf tag at p q = ground (arith, length-drop at buf)
context_loop_enough (suc f) zero buf tag at p q = ground (arith, length-drop at buf)
context_loop_enough (suc f) (suc g) buf tag at p q =
    let next = le_value (take 4 (drop at buf)) in
    elim (Bool-cases (ltb next 16)) [
      | inl short ↦ ground arith
      | inr long ↦
          ground (arith, context_loop_enough f g buf tag (at + next) (ground arith) (ground arith))
    ]
