-- ===== src/Info/Volume.antt =====
-- The filesystem information classes of info.rs.
use smbanything.Base.{ℕ, ◌/◌, List, bit_or, max, length}
use smbanything.Base.Text.{codes}
use smbanything.Info.File.{cluster_size, div_ceil}
use smbanything.Proto.Header.{SystemTime, to_filetime}
use smbanything.Wire.Utf16.{utf16le}
use smbanything.Wire.Writer
use smbanything.Wire.Writer.{Writer, ◌▸◌, empty}

unfoldable pub fs_volume : List ℕ → SystemTime → ℕ → List ℕ
unfolding to_filetime utf16le Writer.u8 Writer.u32 Writer.u64 Writer.bytes
fs_volume label created serial =
    let encoded = utf16le label in
    (empty
      ▸ Writer.u64 (to_filetime created)
      ▸ Writer.u32 serial
      ▸ Writer.u32 (length encoded)
      ▸ Writer.u8 0
      ▸ Writer.u8 0
      ▸ Writer.bytes encoded).buf

unfoldable pub fs_size : ℕ → List ℕ
unfolding Writer.u32 Writer.u64
fs_size total_bytes =
    let units = max (div_ceil total_bytes cluster_size) 1 in
    (empty ▸ Writer.u64 units ▸ Writer.u64 0 ▸ Writer.u32 (cluster_size / 512) ▸ Writer.u32 512).buf

unfoldable pub fs_full_size : ℕ → List ℕ
unfolding Writer.u32 Writer.u64
fs_full_size total_bytes =
    let units = max (div_ceil total_bytes cluster_size) 1 in
    (empty
      ▸ Writer.u64 units
      ▸ Writer.u64 0
      ▸ Writer.u64 0
      ▸ Writer.u32 (cluster_size / 512)
      ▸ Writer.u32 512).buf

-- FILE_DEVICE_DISK; FILE_READ_ONLY_DEVICE and FILE_DEVICE_IS_MOUNTED
unfoldable pub fs_device : List ℕ
unfolding Writer.u32
fs_device = (empty ▸ Writer.u32 0x7 ▸ Writer.u32 (bit_or 0x2 0x20)).buf

-- FILE_CASE_PRESERVED_NAMES, FILE_UNICODE_ON_DISK and FILE_READ_ONLY_VOLUME
unfoldable pub fs_attribute : List ℕ
unfolding utf16le Writer.u32 Writer.bytes
fs_attribute =
    let name = utf16le (codes "smbanything") in
    (empty
      ▸ Writer.u32 (bit_or (bit_or 0x2 0x4) 0x80000)
      ▸ Writer.u32 255
      ▸ Writer.u32 (length name)
      ▸ Writer.bytes name).buf

-- ALIGNED_DEVICE and PARTITION_ALIGNED
unfoldable pub fs_sector_size : List ℕ
unfolding Writer.u32
fs_sector_size =
    (empty
      ▸ Writer.u32 512
      ▸ Writer.u32 512
      ▸ Writer.u32 512
      ▸ Writer.u32 512
      ▸ Writer.u32 (bit_or 0x1 0x2)
      ▸ Writer.u32 0
      ▸ Writer.u32 0).buf
