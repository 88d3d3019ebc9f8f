-- ===== src/Pipe/Share.antt =====
-- The NetrShareEnum call of srvsvc.rs: its level, and the reply that lists the one share.
use smbanything.Base.{
  ℕ, ◌+◌, ◌*◌, ◌/◌, List, [], ◌∷◌, ◌++◌, Option, none, some, ltb, ◌==◌, if◌then◌else◌, not, length,
  part, le_value,
}
use smbanything.Wire.Reader.{usize_max}
use smbanything.Wire.Utf16.{utf16le}
use smbanything.Wire.Writer
use smbanything.Wire.Writer.{Writer, ◌▸◌, empty}

abbrev pub stype_disktree : ℕ
stype_disktree = 0

abbrev pub error_success : ℕ
error_success = 0

abbrev pub error_invalid_level : ℕ
error_invalid_level = 124

-- `buf.get(off..off + len)`
abbrev pub get_range : ℕ → ℕ → List ℕ → Option (List ℕ)
get_range off len buf = if ltb (length buf) (off + len) then none else some (part off len buf)

abbrev u32_at : ℕ → List ℕ → Option ℕ
u32_at off stub = elim (get_range off 4 stub) [ none ↦ none | some b ↦ some (le_value b) ]

abbrev unwrap_or : Option ℕ → ℕ → ℕ
unwrap_or none d = d
unwrap_or (some v) d = v

-- The steps of the offset only grow, so one test stands for the three checks.
abbrev level_after : ℕ → List ℕ → ℕ
level_after actual stub =
    let offset = (actual * 2 + 3) / 4 * 4 + 16 in
    if ltb usize_max offset then 1 else unwrap_or (u32_at offset stub) 1

unfoldable pub requested_level : List ℕ → ℕ
requested_level stub = elim (u32_at 0 stub) [
  | none ↦ 1
  | some server_ptr ↦
      if server_ptr == 0
      then unwrap_or (u32_at 4 stub) 1
      else elim (u32_at 12 stub) [ none ↦ 1 | some actual ↦ level_after actual stub ]
]

unfoldable pub ndr_string : List ℕ → Writer → Writer
unfolding utf16le Writer.bytes Writer.u32 Writer.align_to
ndr_string s w =
    let units = utf16le s ++ (0 ∷ 0 ∷ []) in
    let chars = length units / 2 in
    w ▸ Writer.u32 chars ▸ Writer.u32 0 ▸ Writer.u32 chars ▸ Writer.bytes units ▸ Writer.align_to 4

unfoldable pub net_share_enum : List ℕ → ℕ → List ℕ
unfolding ndr_string Writer.u32
net_share_enum share_name level =
    let w = empty ▸ Writer.u32 level ▸ Writer.u32 level in
    if not (level == 1)
    then (w ▸ Writer.u32 0 ▸ Writer.u32 0 ▸ Writer.u32 0 ▸ Writer.u32 error_invalid_level).buf
    else (w
        ▸ Writer.u32 0x00020000
        ▸ Writer.u32 1
        ▸ Writer.u32 0x00020004
        ▸ Writer.u32 1
        ▸ Writer.u32 0x00020008
        ▸ Writer.u32 stype_disktree
        ▸ Writer.u32 0x0002000C
        ▸ ndr_string share_name
        ▸ ndr_string []
        ▸ Writer.u32 1
        ▸ Writer.u32 0
        ▸ Writer.u32 error_success).buf
