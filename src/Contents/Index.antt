-- ===== src/Contents/Index.antt =====
-- `ArchiveIndex` of src/archive.rs: the paths of an archive in the order of a `BTreeMap`, and what
-- is asked of them. An error of `insert` ends the opening of the archive, and the index with it.
use smbanything.Base.{
  ℕ, ◌+◌, Bool, true, false, ◌&&◌, ◌||◌, List, [], ◌∷◌, Option, none, some, ltb, ◌==◌,
  if◌then◌else◌, length, same,
}
use smbanything.Backing.{is_dir, NodeInfo}
use smbanything.Base.Text.{codes, elem, is_empty, split}

abbrev pub Key : Type 0
Key = List (List ℕ)

-- The order of `String`, and of a `Vec` of them.
unfoldable pub str_lt : List ℕ → List ℕ → Bool
str_lt xs [] = false
str_lt [] (y ∷ ys) = true
str_lt (x ∷ xs) (y ∷ ys) = ltb x y || (x == y && str_lt xs ys)

unfoldable pub key_lt : Key → Key → Bool
unfolding str_lt same
key_lt ps [] = false
key_lt [] (c ∷ cs) = true
key_lt (p ∷ ps) (c ∷ cs) = str_lt p c || (same p c && key_lt ps cs)

unfoldable pub starts_with : Key → Key → Bool
unfolding same
starts_with cs [] = true
starts_with [] (p ∷ ps) = false
starts_with (c ∷ cs) (p ∷ ps) = same p c && starts_with cs ps

unfoldable pub same_key : Key → Key → Bool
unfolding same
same_key [] [] = true
same_key [] (c ∷ cs) = false
same_key (p ∷ ps) [] = false
same_key (p ∷ ps) (c ∷ cs) = same p c && same_key ps cs

pub record IndexedEntry (T : Type 0) : Type 0 where
  pub info : NodeInfo
  pub content : Option T

pub record ArchiveIndex (T : Type 0) : Type 0 where
  pub entries : List (Key × IndexedEntry T)
  pub total_size : ℕ
  pub file_count : ℕ

module _ {V : Type 0} where
  -- `BTreeMap::get` and `BTreeMap::insert`
  unfoldable pub get : Key → List (Key × V) → Option V
  unfolding same_key
  get key [] = none
  get key ((k, v) ∷ m) = let later = get key m in if same_key key k then some v else later

  unfoldable pub put : Key → V → List (Key × V) → List (Key × V)
  unfolding key_lt same_key
  put key v [] = (key, v) ∷ []
  put key v ((k, w) ∷ m) =
      let later = put key v m in
      if key_lt key k
      then (key, v) ∷ (k, w) ∷ m
      else if same_key key k
      then (key, v) ∷ m
      else (k, w) ∷ later

  -- `range((Excluded(parent), Unbounded))`, `take_while` and `filter`
  unfoldable pub after : Key → List (Key × V) → List (Key × V)
  unfolding key_lt
  after parent [] = []
  after parent ((k, v) ∷ m) =
      let later = after parent m in if key_lt parent k then (k, v) ∷ m else later

  unfoldable pub while_under : Key → List (Key × V) → List (Key × V)
  unfolding starts_with
  while_under parent [] = []
  while_under parent ((k, v) ∷ m) =
      let later = while_under parent m in if starts_with k parent then (k, v) ∷ later else []

  unfoldable pub one_below : Key → List (Key × V) → List (Key × V)
  one_below parent [] = []
  one_below parent ((k, v) ∷ m) =
      let later = one_below parent m in
      if length k == length parent + 1 then (k, v) ∷ later else later

abbrev drop_slash : List ℕ → List ℕ
drop_slash [] = []
drop_slash (c ∷ []) = if c == b'/' then [] else c ∷ []
drop_slash (c ∷ d ∷ s) = c ∷ drop_slash (d ∷ s)

abbrev begins_with_slash : List ℕ → Bool
begins_with_slash [] = false
begins_with_slash (c ∷ s) = c == b'/'

-- What a name may not hold: `\`, NUL, a control character, or one of `:*?"<>|`.
abbrev pub bad_char : ℕ → Bool
bad_char c = c == 0x5C || c == 0 || ltb c 0x20 || elem c (codes ":*?\"<>|")

abbrev any_bad : List ℕ → Bool
any_bad [] = false
any_bad (c ∷ s) = bad_char c || any_bad s

abbrev pub bad_component : List ℕ → Bool
bad_component part =
    is_empty part || same part (codes ".") || same part (codes "..") || any_bad part

unfoldable pub check_components : List (List ℕ) → Option (List (List ℕ))
unfolding same
check_components [] = some []
check_components (part ∷ parts) =
    let rest = check_components parts in
    if bad_component part then none else elim rest [ none ↦ none | some ps ↦ some (part ∷ ps) ]

unfoldable pub parse_archive_path : List ℕ → Bool → Option (List (List ℕ))
unfolding check_components split
parse_archive_path raw is_dir =
    let path = if is_dir then drop_slash raw else raw in
    if is_empty path
    then some []
    else if begins_with_slash path
    then none
    else check_components (split b'/' path)
