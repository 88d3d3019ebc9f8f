-- ===== src/Pipe/Dispatch.antt =====
-- `dispatch` of srvsvc.rs answers every request with one complete PDU.
use smbanything.Base.{
  ℕ, ◌+◌, ◌*◌, ◌/◌, ◌^◌, ◌≤◌, ◌<◌, ◌≡◌, refl, not, ◌||◌, List, [], ◌∷◌, ◌++◌, Option, none, some,
  inl, inr, subst, arith, ltb, ◌==◌, if_cases, Option-cases, length, drop, take, part, le_bytes,
  le_value, length-append, AreBytes, All-drop, bit_and,
}
use smbanything.Pipe.Bind.{bind_body_fits}
use smbanything.Pipe.Constants.{
  pfc_first_last, nca_s_op_rng_error, opnum_net_share_enum, ptype_bind, ptype_bind_ack,
  ptype_alter_context, ptype_alter_context_resp, ptype_request,
}
use smbanything.Pipe.Reply.{IsPdu, pdu-IsPdu, fault-IsPdu, response-IsPdu}
use smbanything.Pipe.Rpc.{
  PduHeader, parse_header, dispatch, bind_ack, bind_body, default_context, presented_contexts,
  answer_request, byte_at,
}
use smbanything.Pipe.Share.{
  ndr_string, stype_disktree, error_success, error_invalid_level, net_share_enum, requested_level,
}
use smbanything.Wire.Utf16.{utf16le, length-utf16le}
use smbanything.Wire.Writer
use smbanything.Wire.Writer.{Writer, ◌▸◌, empty, length-align_loop}

length-ndr_string :
    (s : List ℕ) (w : Writer) → length (ndr_string s w).buf ≤ length w.buf + 4 * length s + 18
unfolding ndr_string Writer.align_to Writer.bytes Writer.u32
length-ndr_string s w =
    let units = utf16le s ++ (0 ∷ 0 ∷ []) in
    let chars = length units / 2 in
    let w' : Writer = record {
      buf = ((((w.buf ++ le_bytes 4 chars) ++ le_bytes 4 0) ++ le_bytes 4 chars) ++ units);
    } in
    omega (
      arith,
      length-align_loop 4 4 w',
      length-append (((w.buf ++ le_bytes 4 chars) ++ le_bytes 4 0) ++ le_bytes 4 chars) units,
      length-append ((w.buf ++ le_bytes 4 chars) ++ le_bytes 4 0) (le_bytes 4 chars),
      length-append (w.buf ++ le_bytes 4 chars) (le_bytes 4 0),
      length-append w.buf (le_bytes 4 chars),
      length-append (utf16le s) (0 ∷ 0 ∷ []),
      length-utf16le s,
    )

length-u32 : (v : ℕ) (w : Writer) → length (Writer.u32 v w).buf ≡ length w.buf + 4
unfolding Writer.u32 Writer.bytes
length-u32 v w = length-append w.buf (le_bytes 4 v)

length-head :
    (level : ℕ)
    → length
        (empty
          ▸ Writer.u32 level
          ▸ Writer.u32 level
          ▸ Writer.u32 0x00020000
          ▸ Writer.u32 1
          ▸ Writer.u32 0x00020004
          ▸ Writer.u32 1
          ▸ Writer.u32 0x00020008
          ▸ Writer.u32 stype_disktree
          ▸ Writer.u32 0x0002000C).buf
      ≡ 36
unfolding Writer.u32 Writer.bytes
length-head level = refl

length-refusal :
    (level : ℕ)
    → length
        (empty
          ▸ Writer.u32 level
          ▸ Writer.u32 level
          ▸ Writer.u32 0
          ▸ Writer.u32 0
          ▸ Writer.u32 0
          ▸ Writer.u32 error_invalid_level).buf
      ≡ 24
unfolding Writer.u32 Writer.bytes
length-refusal level = refl

four_bytes : (bs : List ℕ) → AreBytes bs → le_value (take 4 bs) < 2 ^ 32
four_bytes [] h = omega arith
four_bytes (a ∷ []) h = omega (arith, h.0)
four_bytes (a ∷ b ∷ []) h = omega (arith, h.0, h.1.0)
four_bytes (a ∷ b ∷ c ∷ []) h = omega (arith, h.0, h.1.0, h.1.1.0)
four_bytes (a ∷ b ∷ c ∷ d ∷ bs) h = omega (arith, h.0, h.1.0, h.1.1.0, h.1.1.1.0)

-- The listing grows with the share's name alone.
length-net_share_enum :
    (share_name : List ℕ) (level : ℕ)
    → length (net_share_enum share_name level) ≤ 4 * length share_name + 84
unfolding net_share_enum
length-net_share_enum share_name level =
    let head : Writer =
      empty
      ▸ Writer.u32 level
      ▸ Writer.u32 level
      ▸ Writer.u32 0x00020000
      ▸ Writer.u32 1
      ▸ Writer.u32 0x00020004
      ▸ Writer.u32 1
      ▸ Writer.u32 0x00020008
      ▸ Writer.u32 stype_disktree
      ▸ Writer.u32 0x0002000C in
    let named : Writer = ndr_string share_name head in
    let remarked : Writer = ndr_string [] named in
    if_cases (λ (bs : List ℕ). length bs ≤ 4 * length share_name + 84) (not (level == 1))
      (λ h. omega (arith, length-refusal level))
      (λ h. omega (
        arith,
        length-head level,
        length-ndr_string share_name head,
        length-ndr_string [] named,
        length-u32 1 remarked,
        length-u32 0 (Writer.u32 1 remarked),
        length-u32 error_success (Writer.u32 0 (Writer.u32 1 remarked)),
      ))

abbrev pub call_id_of : Option PduHeader → ℕ
call_id_of none = 0
call_id_of (some hdr) = hdr.call_id

module _ (request share_name : List ℕ) where
  answer_request-IsPdu :
      (call_id : ℕ) (stub : List ℕ)
      → call_id < 2 ^ 32
      → length share_name ≤ 10000
      → IsPdu call_id (answer_request call_id stub share_name)
  unfolding answer_request
  answer_request-IsPdu call_id stub id small =
      if_cases (IsPdu call_id) (ltb (length stub) 8)
        (λ h. fault-IsPdu call_id 0 nca_s_op_rng_error id)
        (λ h.
          if_cases (IsPdu call_id) (not (le_value (part 6 2 stub) == opnum_net_share_enum))
            (λ h. fault-IsPdu call_id (le_value (part 4 2 stub)) nca_s_op_rng_error id)
            (λ h.
              response-IsPdu call_id (le_value (part 4 2 stub))
                (net_share_enum share_name (requested_level (drop 8 stub))) id
                (omega (
                  arith,
                  small,
                  length-net_share_enum share_name (requested_level (drop 8 stub)),
                ))))

  bind_ack-IsPdu :
      (hdr : PduHeader) (ptype : ℕ)
      → hdr.call_id < 2 ^ 32
      → AreBytes request
      → IsPdu hdr.call_id (bind_ack request hdr ptype)
  unfolding bind_ack
  bind_ack-IsPdu hdr ptype id bs =
      pdu-IsPdu ptype hdr.call_id (bind_body (default_context (presented_contexts request))) id
        (omega (arith, bind_body_fits request bs))

  abbrev BoundedId : Option PduHeader → Type 0
  BoundedId none = Unit {0}
  BoundedId (some hdr) = hdr.call_id < 2 ^ 32

  -- The call id of a parsed header is a word of the request.
  parse_header-BoundedId : AreBytes request → BoundedId (parse_header request)
  unfolding parse_header
  parse_header-BoundedId bs =
      if_cases BoundedId (ltb (length request) 16 || not (byte_at 0 request == 5)) (λ h. tt)
        (λ h.
          if_cases BoundedId
            (not (le_value (part 8 2 request) == length request)
              || not (bit_and (byte_at 3 request) pfc_first_last == pfc_first_last))
            (λ h. tt) (λ h. four_bytes (drop 12 request) (All-drop _ 12 request bs)))

  -- Whatever the bytes sent to the pipe, what is queued for the client is one complete PDU, as `PduHeader::parse`
  -- sees it, with the request's call id, or 0 if the request is no PDU; the share's name has at most 10000 characters.
  pub dispatch-IsPdu :
      AreBytes request
      → length share_name ≤ 10000
      → IsPdu (call_id_of (parse_header request)) (dispatch request share_name)
  unfolding dispatch
  dispatch-IsPdu bs small = elim (Option-cases (parse_header request)) [
    | inl a ↦ rw (a, dispatch) (fault-IsPdu 0 0 nca_s_op_rng_error (omega arith))
    | inr (hdr, a) ↦
        let id = subst BoundedId a (parse_header-BoundedId bs) in
        rw (a, dispatch)
          (if_cases (IsPdu hdr.call_id) (hdr.ptype == ptype_bind)
            (λ h. bind_ack-IsPdu hdr ptype_bind_ack id bs)
            (λ h.
              if_cases (IsPdu hdr.call_id) (hdr.ptype == ptype_alter_context)
                (λ h. bind_ack-IsPdu hdr ptype_alter_context_resp id bs)
                (λ h.
                  if_cases (IsPdu hdr.call_id) (hdr.ptype == ptype_request)
                    (λ h. answer_request-IsPdu hdr.call_id (drop 16 request) id small)
                    (λ h. fault-IsPdu hdr.call_id 0 nca_s_op_rng_error id))))
  ]
