-- ===== src/Info/FsClass.antt =====
-- The module `fs_class` of info.rs.
use smbanything.Base.{ℕ}

abbrev pub volume : ℕ
volume = 1

abbrev pub size : ℕ
size = 3

abbrev pub device : ℕ
device = 4

abbrev pub attribute : ℕ
attribute = 5

abbrev pub full_size : ℕ
full_size = 7

abbrev pub sector_size : ℕ
sector_size = 11
