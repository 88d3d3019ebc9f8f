-- ===== src/Backing.antt =====
-- smbanything_core/src/smb/backing.rs: what the server presents, behind the trait `Backing`.
use smbanything.Base.{ℕ, Bool, true, false, List, [], Result, ok, err, if◌then◌else◌}
use smbanything.Path.{SmbPath, is_root}
use smbanything.Proto.Header.{SystemTime}
use smbanything.Proto.Status

pub data NodeKind : Type 0 where
  file dir : NodeKind

abbrev pub is_dir : NodeKind → Bool
is_dir dir = true
is_dir file = false

pub record NodeInfo : Type 0 where
  pub name : List ℕ
  pub kind : NodeKind
  pub size : ℕ
  pub mtime : SystemTime
  pub atime : SystemTime
  pub ctime : SystemTime

abbrev pub synthetic_dir : List ℕ → SystemTime → NodeInfo
synthetic_dir name now = record {
  name = name;
  kind = dir;
  size = 0;
  mtime = now;
  atime = now;
  ctime = now;
}

-- The trait `FileReader`.
pub record FileReader : Type 0 where
  pub read_at : ℕ → ℕ → Result (List ℕ)

-- The trait `Backing`; `open` is spelled `open_file`.
pub record Backing : Type 0 where
  pub stat : SmbPath → Result NodeInfo
  pub list : SmbPath → Result (List NodeInfo)
  pub open_file : SmbPath → Result FileReader
  pub label : List ℕ
  pub total_size : ℕ

-- `EmptyBacking`
unfoldable pub empty_backing : List ℕ → SystemTime → Backing
unfolding is_root
empty_backing label now = record {
  stat =
      λ path. if is_root path then ok (synthetic_dir [] now) else err Status.object_name_not_found;
  list = λ path. if is_root path then ok [] else err Status.object_path_not_found;
  open_file = λ path.
      if is_root path then err Status.file_is_a_directory else err Status.object_name_not_found;
  label = label;
  total_size = 0;
}
