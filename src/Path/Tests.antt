-- ===== src/Path/Tests.antt =====
-- Tests of path.rs, and its theorems at concrete paths.
use smbanything.Base.{ℕ, List, [], ◌∷◌, ◌++◌, ◌≡◌, refl, ok, err, All, map}
use smbanything.Base.Text.{codes, to_ascii_lowercase}
use smbanything.Path.{SmbPath, parse, to_smb_string, to_smb_absolute, separator}
use smbanything.Path.Safety.{IsSafe, parse-IsSafe}
use smbanything.Path.RoundTrip.{parse-to_smb_string}
use smbanything.Path.FileId.{file_id}
use smbanything.Proto.Status

-- `dir\a.txt`
abbrev raw_path : List ℕ
raw_path = codes "dir" ++ (separator ∷ codes "a.txt")

abbrev nested : SmbPath
nested = record { components = codes "dir" ∷ codes "a.txt" ∷ [] }

parse-nested : parse raw_path ≡ ok nested
unfolding parse
parse-nested = refl

parse_dot_dot : parse (codes "a" ++ (separator ∷ codes "..")) ≡ err Status.object_path_syntax_bad
unfolding parse
parse_dot_dot = refl

parse_slash : parse (codes "../etc/shadow") ≡ err Status.object_name_invalid
unfolding parse
parse_slash = refl

file_id_root : file_id (map to_ascii_lowercase) (record { components = [] }) ≡ 0xcbf29ce484222325
unfolding file_id
file_id_root = refl

nested-IsSafe : All IsSafe nested.components
nested-IsSafe = parse-IsSafe raw_path nested parse-nested

parse-IsSafe_example : All IsSafe nested.components
parse-IsSafe_example = parse-IsSafe raw_path nested parse-nested

parse-to_smb_string_example :
    (parse (to_smb_string nested) ≡ ok nested) × (parse (to_smb_absolute nested) ≡ ok nested)
parse-to_smb_string_example = parse-to_smb_string nested nested-IsSafe
