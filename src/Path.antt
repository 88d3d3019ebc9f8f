-- ===== src/Path.antt =====
-- smbanything_core/src/smb/path.rs: the validated path of a request.
pub mod Safety
pub mod RoundTrip
pub mod FileId
mod Tests
use smbanything.Base.{
  ℕ, List, [], ◌∷◌, ◌++◌, Option, none, some, Bool, ◌||◌, Result, ok, err, refuse, same,
  if◌then◌else◌, map,
}
use smbanything.Base.Fallible.{◌>>=◌, ◌>>◌}
use smbanything.Base.Text
use smbanything.Base.Text.{is_empty, contains_any, split, trim_matches, codes}
use smbanything.Proto.Status

pub record SmbPath : Type 0 where
  pub components : List (List ℕ)

-- `SmbPath::default`
abbrev pub root : SmbPath
root = record { components = [] }

abbrev pub separator : ℕ
separator = 0x5C

abbrev pub forbidden : List ℕ
forbidden = b'/' ∷ 0 ∷ b':' ∷ b'*' ∷ b'?' ∷ 0x22 ∷ b'<' ∷ b'>' ∷ b'|' ∷ []

-- The loop over the parts of the trimmed text.
pub parse_parts : List (List ℕ) → Result (List (List ℕ))
parse_parts [] = ok []
parse_parts (part ∷ rest) = do
  refuse (is_empty part || same part (codes ".") || same part (codes ".."))
      Status.object_path_syntax_bad
  refuse (contains_any forbidden part) Status.object_name_invalid
  components ← parse_parts rest
  ok (part ∷ components)

unfoldable pub parse : List ℕ → Result SmbPath
unfolding parse_parts contains_any split trim_matches same
parse raw =
    let trimmed = trim_matches separator raw in
    if is_empty trimmed then ok root else do
      components ← parse_parts (split separator trimmed)
      ok (record { components = components })

unfoldable pub is_root : SmbPath → Bool
is_root p = is_empty p.components

unfoldable pub to_smb_string : SmbPath → List ℕ
unfolding Text.join
to_smb_string p = Text.join separator p.components

unfoldable pub to_smb_absolute : SmbPath → List ℕ
unfolding Text.join
to_smb_absolute p = separator ∷ Text.join separator p.components

unfoldable pub join : SmbPath → List ℕ → SmbPath
join p name = record { components = p.components ++ name ∷ [] }

unfoldable pub split_first : SmbPath → Option (List ℕ × SmbPath)
split_first p = elim p.components [
  | [] ↦ none
  | first ∷ rest ↦ some (first, record { components = rest })
]
