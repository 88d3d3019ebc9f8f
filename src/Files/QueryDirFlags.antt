-- ===== src/Files/QueryDirFlags.antt =====
-- The module `query_dir_flags` of files.rs.
use smbanything.Base.{ℕ}

abbrev pub restart_scans : ℕ
restart_scans = 0x01

abbrev pub return_single_entry : ℕ
return_single_entry = 0x02

abbrev pub reopen : ℕ
reopen = 0x10
