-- ===== src/Info/DirClass.antt =====
-- The module `dir_class` of info.rs.
use smbanything.Base.{ℕ}

abbrev pub directory : ℕ
directory = 1

abbrev pub full_directory : ℕ
full_directory = 2

abbrev pub both_directory : ℕ
both_directory = 3

abbrev pub names : ℕ
names = 12

abbrev pub id_both_directory : ℕ
id_both_directory = 37

abbrev pub id_full_directory : ℕ
id_full_directory = 38
