-- ===== src/Info/InfoType.antt =====
-- The module `info_type` of info.rs.
use smbanything.Base.{ℕ}

abbrev pub file : ℕ
file = 0x01

abbrev pub filesystem : ℕ
filesystem = 0x02

abbrev pub security : ℕ
security = 0x03

abbrev pub quota : ℕ
quota = 0x04
