-- ===== src/Info/FileClass.antt =====
-- The module `file_class` of info.rs.
use smbanything.Base.{ℕ}

abbrev pub basic : ℕ
basic = 4

abbrev pub standard : ℕ
standard = 5

abbrev pub internal : ℕ
internal = 6

abbrev pub ea : ℕ
ea = 7

abbrev pub full_ea : ℕ
full_ea = 15

abbrev pub access : ℕ
access = 8

abbrev pub name : ℕ
name = 9

abbrev pub position : ℕ
position = 14

abbrev pub mode : ℕ
mode = 16

abbrev pub alignment : ℕ
alignment = 17

abbrev pub all : ℕ
all = 18

abbrev pub stream : ℕ
stream = 22

abbrev pub network_open : ℕ
network_open = 34

abbrev pub attribute_tag : ℕ
attribute_tag = 35
