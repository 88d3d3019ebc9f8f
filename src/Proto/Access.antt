-- ===== src/Proto/Access.antt =====
-- The access masks of smbanything_core/src/smb/proto.rs, module `access`.
use smbanything.Base.{ℕ, Bool, bit_or, if◌then◌else◌}

abbrev pub file_read_data : ℕ
file_read_data = 0x00000001

abbrev pub file_write_data : ℕ
file_write_data = 0x00000002

abbrev pub file_append_data : ℕ
file_append_data = 0x00000004

abbrev pub file_read_ea : ℕ
file_read_ea = 0x00000008

abbrev pub file_write_ea : ℕ
file_write_ea = 0x00000010

abbrev pub file_execute : ℕ
file_execute = 0x00000020

abbrev pub file_traverse : ℕ
file_traverse = file_execute

abbrev pub file_delete_child : ℕ
file_delete_child = 0x00000040

abbrev pub file_read_attributes : ℕ
file_read_attributes = 0x00000080

abbrev pub file_write_attributes : ℕ
file_write_attributes = 0x00000100

abbrev pub delete : ℕ
delete = 0x00010000

abbrev pub read_control : ℕ
read_control = 0x00020000

abbrev pub write_dac : ℕ
write_dac = 0x00040000

abbrev pub write_owner : ℕ
write_owner = 0x00080000

abbrev pub synchronize : ℕ
synchronize = 0x00100000

abbrev pub read_only_file : ℕ
read_only_file =
    bit_or (bit_or (bit_or (bit_or file_read_data file_read_ea) file_read_attributes) read_control)
      synchronize

abbrev pub read_only_dir : ℕ
read_only_dir = bit_or read_only_file file_traverse

abbrev pub generic_all : ℕ
generic_all = 0x10000000

abbrev pub generic_execute : ℕ
generic_execute = 0x20000000

abbrev pub generic_write : ℕ
generic_write = 0x40000000

abbrev pub execute_bits : ℕ
execute_bits = bit_or (bit_or file_execute generic_execute) generic_all

abbrev pub write_bits : ℕ
write_bits =
    bit_or
      (bit_or
        (bit_or
          (bit_or
            (bit_or
              (bit_or
                (bit_or (bit_or (bit_or file_write_data file_append_data) file_write_ea)
                  file_delete_child)
                file_write_attributes)
              delete)
            write_dac)
          write_owner)
        generic_write)
      generic_all

unfoldable pub read_only : Bool → ℕ
read_only is_dir = if is_dir then read_only_dir else read_only_file
