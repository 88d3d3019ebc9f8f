-- ===== src/Proto/Cmd.antt =====
-- The command codes of smbanything_core/src/smb/proto.rs, module `cmd`.
use smbanything.Base.{ℕ}

abbrev pub negotiate : ℕ
negotiate = 0x0000

abbrev pub session_setup : ℕ
session_setup = 0x0001

abbrev pub logoff : ℕ
logoff = 0x0002

abbrev pub tree_connect : ℕ
tree_connect = 0x0003

abbrev pub tree_disconnect : ℕ
tree_disconnect = 0x0004

abbrev pub create : ℕ
create = 0x0005

abbrev pub close : ℕ
close = 0x0006

abbrev pub flush : ℕ
flush = 0x0007

abbrev pub read : ℕ
read = 0x0008

abbrev pub write : ℕ
write = 0x0009

abbrev pub lock : ℕ
lock = 0x000A

abbrev pub ioctl : ℕ
ioctl = 0x000B

abbrev pub cancel : ℕ
cancel = 0x000C

abbrev pub echo : ℕ
echo = 0x000D

abbrev pub query_directory : ℕ
query_directory = 0x000E

abbrev pub change_notify : ℕ
change_notify = 0x000F

abbrev pub query_info : ℕ
query_info = 0x0010

abbrev pub set_info : ℕ
set_info = 0x0011

abbrev pub oplock_break : ℕ
oplock_break = 0x0012
