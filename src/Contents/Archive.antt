-- ===== src/Contents/Archive.antt =====
-- The methods of `ArchiveIndex` of src/archive.rs.
use smbanything.Base.{
  ℕ, zero, suc, ◌+◌, ◌-◌, Bool, not, ◌||◌, List, [], ◌∷◌, map, Option, none, some, Result, ok, err,
  if◌then◌else◌, length, take, min, same,
}
use smbanything.Backing.{file, is_dir, NodeInfo, synthetic_dir}
use smbanything.Base.Text.{is_empty}
use smbanything.Contents.Index.{
  Key, IndexedEntry, ArchiveIndex, get, put, after, while_under, one_below, parse_archive_path,
}
use smbanything.Path.{SmbPath}
use smbanything.Proto.Header.{SystemTime, u64_max}
use smbanything.Proto.Status

abbrev pub last_name : List (List ℕ) → List ℕ
last_name [] = []
last_name (p ∷ []) = p
last_name (p ∷ q ∷ ps) = last_name (q ∷ ps)

abbrev pub file_info : List ℕ → ℕ → SystemTime → NodeInfo
file_info name size timestamp = record {
  name = name;
  kind = file;
  size = size;
  mtime = timestamp;
  atime = timestamp;
  ctime = timestamp;
}

-- `normalized_key`, and `key_for_smb_path`
abbrev pub normalized_key : (List ℕ → List ℕ) → List (List ℕ) → Key
normalized_key to_lowercase components = map to_lowercase components

module _ {T : Type 0} where
  abbrev pub directory : List ℕ → SystemTime → IndexedEntry T
  directory name timestamp = record { info = synthetic_dir name timestamp; content = none }

  -- `ArchiveIndex::new`
  unfoldable pub new_index : SystemTime → ArchiveIndex T
  new_index timestamp = record {
    entries = ([], directory [] timestamp) ∷ [];
    total_size = 0;
    file_count = 0;
  }

  abbrev pub infos : List (Key × IndexedEntry T) → List NodeInfo
  infos [] = []
  infos ((k, e) ∷ m) = e.info ∷ infos m

  module _ (to_lowercase : List ℕ → List ℕ) where
    abbrev pub keep_directory :
        Option (IndexedEntry T)
        → List ℕ
        → Key
        → SystemTime
        → ArchiveIndex T
        → Option (ArchiveIndex T)
    keep_directory none name key timestamp index =
        some (record index { entries = put key (directory name timestamp) index.entries })
    keep_directory (some existing) name key timestamp index =
        if not (is_dir existing.info.kind) || not (same existing.info.name name)
        then none
        else some index

    unfoldable pub insert_directory :
        List (List ℕ) → SystemTime → ArchiveIndex T → Option (ArchiveIndex T)
    unfolding get put same
    insert_directory components timestamp index =
        let key = normalized_key to_lowercase components in
        keep_directory (get key index.entries) (last_name components) key timestamp index

    -- The loop over the depths of the directories above.
    unfoldable pub insert_parents :
        ℕ → ℕ → List (List ℕ) → SystemTime → ArchiveIndex T → Option (ArchiveIndex T)
    unfolding insert_directory
    insert_parents zero depth components timestamp index = some index
    insert_parents (suc more) depth components timestamp index =
        elim (insert_directory (take depth components) timestamp index) [
          | none ↦ none
          | some index' ↦ insert_parents more (depth + 1) components timestamp index'
        ]

    -- A path that is there is an error; a file without contents is a panic.
    abbrev pub keep_file :
        Option (IndexedEntry T)
        → Option T
        → List ℕ
        → Key
        → ℕ
        → SystemTime
        → ArchiveIndex T
        → Option (ArchiveIndex T)
    keep_file (some existing) content name key size timestamp index = none
    keep_file none none name key size timestamp index = none
    keep_file none (some content) name key size timestamp index = some (record {
      entries =
          put key (record { info = file_info name size timestamp; content = some content })
            index.entries;
      total_size = min (index.total_size + size) u64_max;
      file_count = index.file_count + 1;
    })

    abbrev pub insert_leaf :
        List (List ℕ) → Bool → ℕ → SystemTime → Option T → ArchiveIndex T → Option (ArchiveIndex T)
    insert_leaf components is_dir size timestamp content index =
        let key = normalized_key to_lowercase components in
        if is_dir
        then insert_directory components timestamp index
        else keep_file (get key index.entries) content (last_name components) key size timestamp
            index

    abbrev pub insert_components :
        List (List ℕ) → Bool → ℕ → SystemTime → Option T → ArchiveIndex T → Option (ArchiveIndex T)
    insert_components components is_dir size timestamp content index =
        elim (insert_parents (length components - 1) 1 components timestamp index) [
          | none ↦ none
          | some index' ↦ insert_leaf components is_dir size timestamp content index'
        ]

    unfoldable pub insert :
        List ℕ → Bool → ℕ → SystemTime → Option T → ArchiveIndex T → Option (ArchiveIndex T)
    unfolding parse_archive_path insert_parents insert_directory get put
    insert raw_name is_dir size timestamp content index =
        elim (parse_archive_path raw_name is_dir) [
          | none ↦ none
          | some components ↦
              if is_empty components
              then some index
              else insert_components components is_dir size timestamp content index
        ]

    unfoldable pub entry : SmbPath → ArchiveIndex T → Option (IndexedEntry T)
    unfolding get
    entry path index = get (normalized_key to_lowercase path.components) index.entries

    abbrev pub info_of : Option (IndexedEntry T) → Result NodeInfo
    info_of none = err Status.object_name_not_found
    info_of (some e) = ok e.info

    unfoldable pub stat : SmbPath → ArchiveIndex T → Result NodeInfo
    unfolding entry
    stat path index = info_of (entry path index)

    abbrev pub list_under :
        Option (IndexedEntry T) → Key → List (Key × IndexedEntry T) → Result (List NodeInfo)
    list_under none parent entries = err Status.object_path_not_found
    list_under (some e) parent entries =
        if not (is_dir e.info.kind)
        then err Status.not_a_directory
        else ok (infos (one_below parent (while_under parent (after parent entries))))

    unfoldable pub list : SmbPath → ArchiveIndex T → Result (List NodeInfo)
    unfolding get after while_under one_below
    list path index =
        let parent = normalized_key to_lowercase path.components in
        list_under (get parent index.entries) parent index.entries
