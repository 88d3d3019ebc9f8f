-- ===== src/Pipe/Rpc.antt =====
-- The DCE/RPC messages of srvsvc.rs: what a request is answered with.
use smbanything.Base.{
  ℕ, zero, suc, ◌+◌, ◌*◌, ◌%◌, Bool, true, false, not, ◌||◌, List, [], ◌∷◌, Option, none, some, ltb,
  ◌==◌, if◌then◌else◌, length, take, drop, part, le_value, bit_and, same,
}
use smbanything.Pipe.Constants.{
  max_frag, ptype_request, ptype_response, ptype_fault, ptype_bind, ptype_bind_ack,
  ptype_alter_context, ptype_alter_context_resp, pfc_first_last, ndr_syntax, ndr_syntax_version,
  opnum_net_share_enum, nca_s_op_rng_error, bind_time_feature_prefix, acceptance,
  provider_rejection, negotiate_ack, reason_transfer_syntaxes_not_supported, sec_addr,
}
use smbanything.Pipe.Share.{get_range, requested_level, net_share_enum}
use smbanything.Wire.Writer
use smbanything.Wire.Writer.{Writer, ◌▸◌, empty}

pub record PduHeader : Type 0 where
  pub ptype : ℕ
  pub call_id : ℕ

abbrev pub byte_at : ℕ → List ℕ → ℕ
byte_at i buf = le_value (part i 1 buf)

-- `PduHeader::parse`: one complete PDU, which is the first and the last fragment of its message.
unfoldable pub parse_header : List ℕ → Option PduHeader
parse_header buf =
    if ltb (length buf) 16 || not (byte_at 0 buf == 5)
    then none
    else if not (le_value (part 8 2 buf) == length buf)
        || not (bit_and (byte_at 3 buf) pfc_first_last == pfc_first_last)
    then none
    else some (record { ptype = byte_at 2 buf; call_id = le_value (part 12 4 buf) })

unfoldable pub write_pdu_header : ℕ → ℕ → ℕ → Writer → Writer
unfolding Writer.u8 Writer.u16 Writer.u32 Writer.bytes
write_pdu_header ptype frag_len call_id w =
    w
    ▸ Writer.u8 5
    ▸ Writer.u8 0
    ▸ Writer.u8 ptype
    ▸ Writer.u8 pfc_first_last
    ▸ Writer.bytes (0x10 ∷ 0x00 ∷ 0x00 ∷ 0x00 ∷ [])
    ▸ Writer.u16 frag_len
    ▸ Writer.u16 0
    ▸ Writer.u32 call_id

pub data Presented : Type 0 where
  ndr32 feature_request unsupported : Presented

-- The loop over the transfer syntaxes of one context.
unfoldable pub presented_kind : ℕ → ℕ → List ℕ → Presented
presented_kind zero off body = unsupported
presented_kind (suc n) off body =
    let later = presented_kind n (off + 20) body in
    elim (get_range off 16 body) [
      | none ↦ unsupported
      | some syntax ↦
          if same syntax ndr_syntax
          then ndr32
          else if same (take 8 syntax) bind_time_feature_prefix
          then feature_request
          else later
    ]

-- The loop over the contexts; it ends where the body does.
unfoldable pub contexts_from : ℕ → ℕ → List ℕ → List Presented
unfolding presented_kind
contexts_from zero at body = []
contexts_from (suc count) at body =
    let n_transfer = byte_at (at + 2) body in
    let syntaxes_at = at + 4 + 20 in
    let later = contexts_from count (syntaxes_at + n_transfer * 20) body in
    if ltb (at + 2) (length body) then presented_kind n_transfer syntaxes_at body ∷ later else []

unfoldable pub presented_contexts : List ℕ → List Presented
unfolding contexts_from
presented_contexts buf =
    let body = drop 16 buf in
    if ltb (length buf) 16
    then []
    else if ltb 8 (length body)
    then contexts_from (byte_at 8 body) 12 body
    else []

abbrev pub default_context : List Presented → List Presented
default_context [] = ndr32 ∷ []
default_context (c ∷ cs) = c ∷ cs

abbrev rejection : Writer → Writer
rejection w =
    w
    ▸ Writer.u16 provider_rejection
    ▸ Writer.u16 reason_transfer_syntaxes_not_supported
    ▸ Writer.zeros 16
    ▸ Writer.u32 0

-- The loop that answers each context; only the first that offers NDR32 is accepted.
unfoldable pub write_results : Bool → List Presented → Writer → Writer
write_results accepted [] w = w
write_results false (ndr32 ∷ cs) w =
    w
    ▸ Writer.u16 acceptance
    ▸ Writer.u16 0
    ▸ Writer.bytes ndr_syntax
    ▸ Writer.u32 ndr_syntax_version
    ▸ write_results true cs
write_results true (ndr32 ∷ cs) w = w ▸ rejection ▸ write_results true cs
write_results accepted (feature_request ∷ cs) w =
    w
    ▸ Writer.u16 negotiate_ack
    ▸ Writer.u16 0
    ▸ Writer.zeros 16
    ▸ Writer.u32 0
    ▸ write_results accepted cs
write_results accepted (unsupported ∷ cs) w = w ▸ rejection ▸ write_results accepted cs

unfoldable pub bind_body : List Presented → List ℕ
unfolding write_results
bind_body contexts =
    (empty
      ▸ Writer.u16 max_frag
      ▸ Writer.u16 max_frag
      ▸ Writer.u32 0x00001063
      ▸ Writer.u16 (length sec_addr)
      ▸ Writer.bytes sec_addr
      ▸ Writer.align_to 4
      ▸ Writer.u8 (length contexts % 256)
      ▸ Writer.zeros 3
      ▸ write_results false contexts).buf

-- A whole PDU around its body.
abbrev pub pdu : ℕ → ℕ → List ℕ → List ℕ
pdu ptype call_id body =
    (empty ▸ write_pdu_header ptype (16 + length body) call_id ▸ Writer.bytes body).buf

unfoldable pub bind_ack : List ℕ → PduHeader → ℕ → List ℕ
unfolding presented_contexts bind_body write_pdu_header
bind_ack request hdr ptype =
    pdu ptype hdr.call_id (bind_body (default_context (presented_contexts request)))

unfoldable pub response : ℕ → ℕ → List ℕ → List ℕ
unfolding write_pdu_header
response call_id context_id stub =
    (empty
      ▸ write_pdu_header ptype_response (24 + length stub) call_id
      ▸ Writer.u32 (length stub)
      ▸ Writer.u16 context_id
      ▸ Writer.u8 0
      ▸ Writer.u8 0
      ▸ Writer.bytes stub).buf

unfoldable pub fault : ℕ → ℕ → ℕ → List ℕ
unfolding write_pdu_header
fault call_id context_id code =
    (empty
      ▸ write_pdu_header ptype_fault 32 call_id
      ▸ Writer.u32 0
      ▸ Writer.u16 context_id
      ▸ Writer.u8 0
      ▸ Writer.u8 0
      ▸ Writer.u32 code
      ▸ Writer.u32 0).buf

-- The body of a REQUEST. `parse_header` has seen 16 bytes.
unfoldable pub answer_request : ℕ → List ℕ → List ℕ → List ℕ
unfolding response fault requested_level net_share_enum
answer_request call_id stub share_name =
    if ltb (length stub) 8
    then fault call_id 0 nca_s_op_rng_error
    else if not (le_value (part 6 2 stub) == opnum_net_share_enum)
    then fault call_id (le_value (part 4 2 stub)) nca_s_op_rng_error
    else response call_id (le_value (part 4 2 stub))
        (net_share_enum share_name (requested_level (drop 8 stub)))

unfoldable pub dispatch : List ℕ → List ℕ → List ℕ
unfolding parse_header bind_ack answer_request fault
dispatch request share_name = elim (parse_header request) [
  | none ↦ fault 0 0 nca_s_op_rng_error
  | some hdr ↦
      if hdr.ptype == ptype_bind
      then bind_ack request hdr ptype_bind_ack
      else if hdr.ptype == ptype_alter_context
      then bind_ack request hdr ptype_alter_context_resp
      else if hdr.ptype == ptype_request
      then answer_request hdr.call_id (drop 16 request) share_name
      else fault hdr.call_id 0 nca_s_op_rng_error
]
