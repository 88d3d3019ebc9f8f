-- ===== src/Ntlm/Flags.antt =====
-- The NTLMSSP negotiate flags of smbanything_core/src/smb/ntlm.rs, module `flags`.
use smbanything.Base.{ℕ}

abbrev pub negotiate_unicode : ℕ
negotiate_unicode = 0x00000001

abbrev pub request_target : ℕ
request_target = 0x00000004

abbrev pub negotiate_sign : ℕ
negotiate_sign = 0x00000010

abbrev pub negotiate_ntlm : ℕ
negotiate_ntlm = 0x00000200

abbrev pub negotiate_anonymous : ℕ
negotiate_anonymous = 0x00000800

abbrev pub negotiate_always_sign : ℕ
negotiate_always_sign = 0x00008000

abbrev pub target_type_server : ℕ
target_type_server = 0x00020000

abbrev pub extended_sessionsecurity : ℕ
extended_sessionsecurity = 0x00080000

abbrev pub negotiate_target_info : ℕ
negotiate_target_info = 0x00800000

abbrev pub negotiate_key_exch : ℕ
negotiate_key_exch = 0x40000000

abbrev pub negotiate_128 : ℕ
negotiate_128 = 0x20000000

abbrev pub negotiate_56 : ℕ
negotiate_56 = 0x80000000
