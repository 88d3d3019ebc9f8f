-- ===== src/Info/Directory/Lengths.antt =====
-- How many bytes the writers of info.rs append to an entry.
use smbanything.Base.{
  ℕ, ◌+◌, List, [], ◌∷◌, ◌≡◌, some, ok, arith, length, length-append, replicate, le_bytes,
  Bool-cases, inl, inr, ◌==◌, false,
}
use smbanything.Backing.{NodeInfo}
use smbanything.Info.DirClass
use smbanything.Info.Directory.{dir_entry_fixed_len, class_fields, write_dir_entry}
use smbanything.Info.File.{write_times, file_attributes, allocation_size}
use smbanything.Wire.Utf16.{utf16le}
use smbanything.Wire.Writer
use smbanything.Wire.Writer.{Writer, ◌▸◌}

length-bytes : (v : List ℕ) (w : Writer) → length (Writer.bytes v w).buf ≡ length w.buf + length v
unfolding Writer.bytes
length-bytes v w = length-append w.buf v

length-u8 : (v : ℕ) (w : Writer) → length (Writer.u8 v w).buf ≡ length w.buf + 1
unfolding Writer.u8
length-u8 v w = length-append w.buf (v ∷ [])

length-u16 : (v : ℕ) (w : Writer) → length (Writer.u16 v w).buf ≡ length w.buf + 2
unfolding Writer.u16
length-u16 v w = length-append w.buf (le_bytes 2 v)

length-u32 : (v : ℕ) (w : Writer) → length (Writer.u32 v w).buf ≡ length w.buf + 4
unfolding Writer.u32
length-u32 v w = length-append w.buf (le_bytes 4 v)

length-u64 : (v : ℕ) (w : Writer) → length (Writer.u64 v w).buf ≡ length w.buf + 8
unfolding Writer.u64
length-u64 v w = length-append w.buf (le_bytes 8 v)

length-zeros24 : (w : Writer) → length (Writer.zeros 24 w).buf ≡ length w.buf + 24
unfolding Writer.zeros
length-zeros24 w = length-append w.buf (replicate 24 0)

length-write_times :
    (info : NodeInfo) (w : Writer) → length (write_times info w).buf ≡ length w.buf + 32
unfolding write_times
length-write_times info w = simp length-append (omega arith)

ruleset lengths = (
  length-bytes, length-u8, length-u16, length-u32, length-u64, length-zeros24, length-write_times,
)

length-class_fields :
    (class fixed file_id : ℕ) (w : Writer)
    → dir_entry_fixed_len class ≡ some fixed
    → (class == DirClass.names) ≡ false
    → (w' : Writer) × (class_fields class file_id w ≡ ok w')
      × (length w'.buf + 64 ≡ length w.buf + fixed)
unfolding class_fields dir_entry_fixed_len
length-class_fields class fixed file_id w h k = elim (Bool-cases (class == 1)) [
  | inl a ↦ (w, ground arith, ground arith)
  | inr a ↦ elim (Bool-cases (class == 2)) [
    | inl b ↦ (Writer.u32 0 w, ground arith, ground (arith, length-u32 0 w))
    | inr b ↦ elim (Bool-cases (class == 3)) [
      | inl c ↦ (short, ground arith, ground (arith, length_short))
      | inr c ↦ elim (Bool-cases (class == 37)) [
        | inl d ↦
            let w' : Writer = short ▸ Writer.u16 0 ▸ Writer.u64 file_id in
            let n : length w'.buf ≡ length w.buf + 40 = simp lengths (omega arith) in
            (w', ground arith, ground (arith, n))
        | inr d ↦
            let w' : Writer = w ▸ Writer.u32 0 ▸ Writer.u32 0 ▸ Writer.u64 file_id in
            let n : length w'.buf ≡ length w.buf + 16 = simp lengths (omega arith) in
            (w', ground arith, ground (arith, n))
      ]
    ]
  ]
]
  where
    short : Writer
    short = w ▸ Writer.u32 0 ▸ Writer.u8 0 ▸ Writer.u8 0 ▸ Writer.zeros 24

    length_short : length short.buf ≡ length w.buf + 30
    length_short = simp lengths (omega arith)

-- The check on the fixed part never fails for a known class, and an entry takes its fixed part and
-- its name.
pub write_dir_entry_lem :
    (class fixed index file_id : ℕ) (info : NodeInfo) (out : Writer)
    → dir_entry_fixed_len class ≡ some fixed
    → (w : Writer) × (write_dir_entry class index info file_id out ≡ ok w)
      × (length w.buf ≡ length out.buf + fixed + length (utf16le info.name))
unfolding write_dir_entry
write_dir_entry_lem class fixed index file_id info out h =
    elim (Bool-cases (class == DirClass.names)) [
      | inl names ↦
          let fields : Writer = common ▸ Writer.u32 (length name) in
          let n : length fields.buf ≡ length out.buf + 12 = simp lengths (omega arith) in
          let f : fixed ≡ 12 = unfold dir_entry_fixed_len in ground arith in
          (
            Writer.bytes name fields,
            rw (h, names) (ground (arith, n)),
            omega (arith, length-bytes name fields, n, f),
          )
      | inr other ↦
          let (fields, e, n) = length-class_fields class fixed file_id shared h other in
          let m : length shared.buf ≡ length out.buf + 64 = simp lengths (omega arith) in
          (
            Writer.bytes name fields,
            rw (h, other, e) (ground (arith, n, m)),
            omega (arith, length-bytes name fields, n, m),
          )
    ]
  where
    name : List ℕ
    name = utf16le info.name

    common : Writer
    common = out ▸ Writer.u32 0 ▸ Writer.u32 index

    shared : Writer
    shared =
        common
        ▸ write_times info
        ▸ Writer.u64 info.size
        ▸ Writer.u64 (allocation_size info.size)
        ▸ Writer.u32 (file_attributes info.kind)
        ▸ Writer.u32 (length name)
