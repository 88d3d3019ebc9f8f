-- ===== src/Info/Attr.antt =====
-- The module `attr` of info.rs.
use smbanything.Base.{ℕ}

abbrev pub readonly : ℕ
readonly = 0x00000001

abbrev pub directory : ℕ
directory = 0x00000010

abbrev pub normal : ℕ
normal = 0x00000080
