-- ===== src/Contents/Root.antt =====
-- `RootBacking` of src/root.rs: the README beside the folder of the archive that is loaded.
use smbanything.Base.{
  ℕ, ◌+◌, ◌-◌, List, [], ◌∷◌, Option, none, some, Result, ok, err, leb, if◌then◌else◌, length, part,
  min,
}
use smbanything.Backing.{file, NodeInfo, FileReader, Backing, synthetic_dir}
use smbanything.Base.Text.{codes, eq_ignore_ascii_case}
use smbanything.Path.{SmbPath, is_root, split_first}
use smbanything.Proto.Header.{SystemTime, u64_max}
use smbanything.Proto.Status

abbrev pub readme_name : List ℕ
readme_name = codes "README.txt"

abbrev pub empty_label : List ℕ
empty_label = codes "smbanything"

pub record Folder : Type 0 where
  pub info : NodeInfo
  pub backing : Backing

-- The text of the README is a field.
pub record RootBacking : Type 0 where
  pub created : SystemTime
  pub readme : List ℕ
  pub archive : Option Folder

pub data Located : Type 0 where
  at_root at_readme : Located
  in_archive : Folder → SmbPath → Located

-- `build`: the folder's node carries its name and the time of the root.
abbrev pub build : SystemTime → List ℕ → Option (List ℕ × Backing) → RootBacking
build created readme none = record { created = created; readme = readme; archive = none }
build created readme (some (folder, backing)) = record {
  created = created;
  readme = readme;
  archive = some (record { info = synthetic_dir folder created; backing = backing });
}

unfoldable pub readme_info : RootBacking → NodeInfo
readme_info r = record {
  name = readme_name;
  kind = file;
  size = length r.readme;
  mtime = r.created;
  atime = r.created;
  ctime = r.created;
}

-- The part of `locate` behind the README's name.
abbrev pub in_folder : Option Folder → List ℕ → SmbPath → Option Located
in_folder none first rest = none
in_folder (some folder) first rest =
    if eq_ignore_ascii_case first folder.info.name then some (in_archive folder rest) else none

unfoldable pub locate : RootBacking → SmbPath → Option Located
unfolding eq_ignore_ascii_case split_first is_root
locate r path = elim (split_first path) [
  | none ↦ some at_root
  | some (first, rest) ↦
      if eq_ignore_ascii_case first readme_name
      then (if is_root rest then some at_readme else none)
      else in_folder r.archive first rest
]

abbrev pub stat_at : RootBacking → Option Located → Result NodeInfo
stat_at r none = err Status.object_name_not_found
stat_at r (some at_root) = ok (synthetic_dir [] r.created)
stat_at r (some at_readme) = ok (readme_info r)
stat_at r (some (in_archive folder inner)) =
    if is_root inner then ok folder.info else folder.backing.stat inner

abbrev folder_infos : Option Folder → List NodeInfo
folder_infos none = []
folder_infos (some folder) = folder.info ∷ []

abbrev pub list_at : RootBacking → Option Located → Result (List NodeInfo)
list_at r none = err Status.object_path_not_found
list_at r (some at_root) = ok (readme_info r ∷ folder_infos r.archive)
list_at r (some at_readme) = err Status.not_a_directory
list_at r (some (in_archive folder inner)) = folder.backing.list inner

-- `Readme::read_at`
unfoldable pub read_readme : List ℕ → ℕ → ℕ → Result (List ℕ)
read_readme readme offset len =
    if leb (length readme) offset
    then ok []
    else ok (part offset (min (offset + len) (length readme) - offset) readme)

abbrev pub open_at : RootBacking → Option Located → Result FileReader
open_at r none = err Status.object_name_not_found
open_at r (some at_root) = err Status.file_is_a_directory
open_at r (some at_readme) = ok (record { read_at = read_readme r.readme })
open_at r (some (in_archive folder inner)) =
    if is_root inner then err Status.file_is_a_directory else folder.backing.open_file inner

abbrev label_of : Option Folder → List ℕ
label_of none = empty_label
label_of (some folder) = folder.backing.label

abbrev size_of : Option Folder → ℕ
size_of none = 0
size_of (some folder) = folder.backing.total_size

-- `impl Backing for RootBacking`
unfoldable pub root_backing : RootBacking → Backing
unfolding locate readme_info read_readme is_root
root_backing r = record {
  stat = λ path. stat_at r (locate r path);
  list = λ path. list_at r (locate r path);
  open_file = λ path. open_at r (locate r path);
  label = label_of r.archive;
  total_size = min (size_of r.archive + length r.readme) u64_max;
}
