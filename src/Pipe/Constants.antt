-- ===== src/Pipe/Constants.antt =====
-- The constants of the DCE/RPC part of srvsvc.rs.
use smbanything.Base.{ℕ, List, [], ◌∷◌}

abbrev pub max_frag : ℕ
max_frag = 4280

-- The module `ptype`.
abbrev pub ptype_request : ℕ
ptype_request = 0

abbrev pub ptype_response : ℕ
ptype_response = 2

abbrev pub ptype_fault : ℕ
ptype_fault = 3

abbrev pub ptype_bind : ℕ
ptype_bind = 11

abbrev pub ptype_bind_ack : ℕ
ptype_bind_ack = 12

abbrev pub ptype_alter_context : ℕ
ptype_alter_context = 14

abbrev pub ptype_alter_context_resp : ℕ
ptype_alter_context_resp = 15

abbrev pub pfc_first_last : ℕ
pfc_first_last = 0x03

abbrev pub ndr_syntax : List ℕ
ndr_syntax =
    0x04 ∷ 0x5D ∷ 0x88 ∷ 0x8A ∷ 0xEB ∷ 0x1C ∷ 0xC9 ∷ 0x11 ∷ 0x9F ∷ 0xE8 ∷ 0x08 ∷ 0x00 ∷ 0x2B ∷ 0x10
    ∷ 0x48 ∷ 0x60 ∷ []

abbrev pub ndr_syntax_version : ℕ
ndr_syntax_version = 2

abbrev pub opnum_net_share_enum : ℕ
opnum_net_share_enum = 15

abbrev pub nca_s_op_rng_error : ℕ
nca_s_op_rng_error = 0x1C010002

abbrev pub bind_time_feature_prefix : List ℕ
bind_time_feature_prefix = 0x2C ∷ 0x1C ∷ 0xB7 ∷ 0x6C ∷ 0x12 ∷ 0x98 ∷ 0x40 ∷ 0x45 ∷ []

-- The module `bind_result`.
abbrev pub acceptance : ℕ
acceptance = 0

abbrev pub provider_rejection : ℕ
provider_rejection = 2

abbrev pub negotiate_ack : ℕ
negotiate_ack = 3

abbrev pub reason_transfer_syntaxes_not_supported : ℕ
reason_transfer_syntaxes_not_supported = 2

abbrev pub sec_addr : List ℕ
sec_addr =
    0x5C ∷ b'P' ∷ b'I' ∷ b'P' ∷ b'E' ∷ 0x5C ∷ b's' ∷ b'r' ∷ b'v' ∷ b's' ∷ b'v' ∷ b'c' ∷ 0 ∷ []
