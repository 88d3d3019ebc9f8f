-- ===== src/Files/Options.antt =====
-- The module `options` of files.rs.
use smbanything.Base.{ℕ}

abbrev pub directory_file : ℕ
directory_file = 0x1

abbrev pub non_directory_file : ℕ
non_directory_file = 0x40

abbrev pub delete_on_close : ℕ
delete_on_close = 0x1000
