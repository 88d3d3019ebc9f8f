-- ===== src/Proto/Flags.antt =====
-- The header flags of smbanything_core/src/smb/proto.rs, module `flags`.
use smbanything.Base.{ℕ}

abbrev pub server_to_redir : ℕ
server_to_redir = 0x00000001

abbrev pub async_command : ℕ
async_command = 0x00000002

abbrev pub related_operations : ℕ
related_operations = 0x00000004

abbrev pub signed : ℕ
signed = 0x00000008

abbrev pub dfs_operations : ℕ
dfs_operations = 0x10000000
