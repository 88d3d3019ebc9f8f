-- ===== src/Proto/Status.antt =====
-- The NTSTATUS values of smbanything_core/src/smb/proto.rs, module `status`.
use smbanything.Base.{ℕ}

abbrev pub success : ℕ
success = 0x00000000

abbrev pub buffer_overflow : ℕ
buffer_overflow = 0x80000005

abbrev pub no_more_files : ℕ
no_more_files = 0x80000006

abbrev pub info_length_mismatch : ℕ
info_length_mismatch = 0xC0000004

abbrev pub invalid_parameter : ℕ
invalid_parameter = 0xC000000D

abbrev pub no_such_file : ℕ
no_such_file = 0xC000000F

abbrev pub end_of_file : ℕ
end_of_file = 0xC0000011

abbrev pub more_processing_required : ℕ
more_processing_required = 0xC0000016

abbrev pub access_denied : ℕ
access_denied = 0xC0000022

abbrev pub logon_failure : ℕ
logon_failure = 0xC000006D

abbrev pub eas_not_supported : ℕ
eas_not_supported = 0xC000004F

abbrev pub no_eas_on_file : ℕ
no_eas_on_file = 0xC0000052

abbrev pub object_name_invalid : ℕ
object_name_invalid = 0xC0000033

abbrev pub object_name_not_found : ℕ
object_name_not_found = 0xC0000034

abbrev pub object_name_collision : ℕ
object_name_collision = 0xC0000035

abbrev pub unexpected_io_error : ℕ
unexpected_io_error = 0xC00000E9

abbrev pub object_path_not_found : ℕ
object_path_not_found = 0xC000003A

abbrev pub object_path_syntax_bad : ℕ
object_path_syntax_bad = 0xC000003B

abbrev pub media_write_protected : ℕ
media_write_protected = 0xC00000A2

abbrev pub not_supported : ℕ
not_supported = 0xC00000BB

abbrev pub network_name_deleted : ℕ
network_name_deleted = 0xC00000C9

abbrev pub bad_network_name : ℕ
bad_network_name = 0xC00000CC

abbrev pub not_a_directory : ℕ
not_a_directory = 0xC0000103

abbrev pub file_closed : ℕ
file_closed = 0xC0000128

abbrev pub user_session_deleted : ℕ
user_session_deleted = 0xC0000203

abbrev pub fs_driver_required : ℕ
fs_driver_required = 0xC000019C

abbrev pub invalid_device_request : ℕ
invalid_device_request = 0xC0000010

abbrev pub file_is_a_directory : ℕ
file_is_a_directory = 0xC00000BA

abbrev pub invalid_info_class : ℕ
invalid_info_class = 0xC0000003

abbrev pub request_not_accepted : ℕ
request_not_accepted = 0xC00000D0
