-- ===== src/Info/File.antt =====
-- The file information classes of info.rs.
use smbanything.Base.{
  ℕ, arith, ◌≡◌, ◌≤◌, ◌<◌, ◌%◌, ◌+◌, ◌*◌, ◌-◌, ◌/◌, ◌^◌, List, [], ◌++◌, Bool, true, false, bit_or,
  min, length, if◌then◌else◌,
}
use smbanything.Base.Text.{codes}
use smbanything.Backing.{NodeInfo, NodeKind, file, dir, is_dir}
use smbanything.Info.Attr
use smbanything.Proto.Header.{to_filetime, u64_max}
use smbanything.Wire.Utf16.{utf16le}
use smbanything.Wire.Writer
use smbanything.Wire.Writer.{Writer, ◌▸◌, empty}

unfoldable pub file_attributes : NodeKind → ℕ
file_attributes dir = bit_or Attr.directory Attr.readonly
file_attributes file = Attr.readonly

abbrev pub cluster_size : ℕ
cluster_size = 4096

-- `u64::div_ceil`
abbrev pub div_ceil : ℕ → ℕ → ℕ
div_ceil a b = (a + (b - 1)) / b

unfoldable pub allocation_size : ℕ → ℕ
allocation_size size = min (div_ceil size cluster_size * cluster_size) u64_max

unfoldable pub write_times : NodeInfo → Writer → Writer
unfolding Writer.u64 to_filetime
write_times info w =
    w
    ▸ Writer.u64 (to_filetime info.ctime)
    ▸ Writer.u64 (to_filetime info.atime)
    ▸ Writer.u64 (to_filetime info.mtime)
    ▸ Writer.u64 (to_filetime info.ctime)

unfoldable pub file_basic : NodeInfo → List ℕ
unfolding write_times file_attributes Writer.u32
file_basic info =
    (empty ▸ write_times info ▸ Writer.u32 (file_attributes info.kind) ▸ Writer.u32 0).buf

abbrev of_bool : Bool → ℕ
of_bool true = 1
of_bool false = 0

unfoldable pub file_standard : NodeInfo → List ℕ
unfolding allocation_size Writer.u8 Writer.u16 Writer.u32 Writer.u64
file_standard info =
    (empty
      ▸ Writer.u64 (allocation_size info.size)
      ▸ Writer.u64 info.size
      ▸ Writer.u32 1
      ▸ Writer.u8 0
      ▸ Writer.u8 (of_bool (is_dir info.kind))
      ▸ Writer.u16 0).buf

unfoldable pub file_internal : ℕ → List ℕ
unfolding Writer.u64
file_internal file_id = (empty ▸ Writer.u64 file_id).buf

unfoldable pub file_ea : List ℕ
unfolding Writer.u32
file_ea = (empty ▸ Writer.u32 0).buf

unfoldable pub file_access : ℕ → List ℕ
unfolding Writer.u32
file_access granted = (empty ▸ Writer.u32 granted).buf

unfoldable pub file_position : List ℕ
unfolding Writer.u64
file_position = (empty ▸ Writer.u64 0).buf

unfoldable pub file_mode : List ℕ
unfolding Writer.u32
file_mode = (empty ▸ Writer.u32 0).buf

unfoldable pub file_alignment : List ℕ
unfolding Writer.u32
file_alignment = (empty ▸ Writer.u32 0).buf

unfoldable pub file_name : List ℕ → List ℕ
unfolding Writer.u32 Writer.bytes utf16le
file_name path =
    let encoded = utf16le path in (empty ▸ Writer.u32 (length encoded) ▸ Writer.bytes encoded).buf

unfoldable pub file_all : NodeInfo → ℕ → ℕ → List ℕ → List ℕ
unfolding file_basic file_standard file_internal file_ea file_access file_position file_mode
    file_alignment file_name
file_all info file_id granted path =
    file_basic info
    ++ (file_standard info
        ++ (file_internal file_id
            ++ (file_ea
                ++ (file_access granted
                    ++ (file_position ++ (file_mode ++ (file_alignment ++ file_name path)))))))

unfoldable pub file_network_open : NodeInfo → List ℕ
unfolding write_times allocation_size file_attributes Writer.u32 Writer.u64
file_network_open info =
    (empty
      ▸ write_times info
      ▸ Writer.u64 (allocation_size info.size)
      ▸ Writer.u64 info.size
      ▸ Writer.u32 (file_attributes info.kind)
      ▸ Writer.u32 0).buf

unfoldable pub file_attribute_tag : NodeInfo → List ℕ
unfolding file_attributes Writer.u32
file_attribute_tag info = (empty ▸ Writer.u32 (file_attributes info.kind) ▸ Writer.u32 0).buf

unfoldable pub file_stream : NodeInfo → List ℕ
unfolding allocation_size utf16le Writer.u32 Writer.u64 Writer.bytes
file_stream info =
    let name = utf16le (codes "::$DATA") in
    let entry =
      empty
      ▸ Writer.u32 0
      ▸ Writer.u32 (length name)
      ▸ Writer.u64 info.size
      ▸ Writer.u64 (allocation_size info.size)
      ▸ Writer.bytes name in
    if is_dir info.kind then [] else entry.buf

-- The allocation size of a file whose clusters fit in 64 bits is the least number of whole clusters that
-- holds the file.
pub allocation_size_lem :
    (size : ℕ)
    → size + 4096 < 2 ^ 64
    → (size ≤ allocation_size size)
      × (allocation_size size % 4096 ≡ 0)
      × (allocation_size size < size + 4096)
unfolding allocation_size
allocation_size_lem size small = (omega arith, omega arith, omega arith)
