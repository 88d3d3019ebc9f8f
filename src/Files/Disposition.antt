-- ===== src/Files/Disposition.antt =====
-- The module `disposition` of files.rs; `OPEN` is spelled `open_existing`.
use smbanything.Base.{ℕ}

abbrev pub supersede : ℕ
supersede = 0

abbrev pub open_existing : ℕ
open_existing = 1

abbrev pub create : ℕ
create = 2

abbrev pub open_if : ℕ
open_if = 3

abbrev pub overwrite : ℕ
overwrite = 4

abbrev pub overwrite_if : ℕ
overwrite_if = 5
