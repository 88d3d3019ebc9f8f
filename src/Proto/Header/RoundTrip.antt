-- ===== src/Proto/Header/RoundTrip.antt =====
-- A response header reads back as the fields it was written from.
use smbanything.Base.{
  ℕ, ◌+◌, ◌<◌, ◌^◌, ◌≡◌, refl, ap, ◌∙◌, some, List, [], ◌++◌, arith, bit_or, bit_and, same,
  le_bytes, replicate, length, drop, drop-append_length, append_assoc, append-nil, sym,
}
use smbanything.Proto.Flags
use smbanything.Proto.Header.{Header, parse, write_response, smb2_magic, header_len}
use smbanything.Wire.Reader
use smbanything.Wire.Reader.{Reader, pure}
use smbanything.Wire.Writer.{Writer}
use smbanything.Wire.Codec.{
  Reads, Reads-bind, Reads-bytes, Reads-u16, Reads-u32, Reads-u64, Reads-skip, Reads-pure,
}

-- Every field within its width.
pub record IsInRange (h : Header) : Type 0 where
  pub credit_charge : h.credit_charge < 2 ^ 16
  pub status : h.status < 2 ^ 32
  pub command : h.command < 2 ^ 16
  pub credits : h.credits < 2 ^ 16
  pub flags : h.flags < 2 ^ 32
  pub next_command : h.next_command < 2 ^ 32
  pub message_id : h.message_id < 2 ^ 64
  pub tree_id : h.tree_id < 2 ^ 32
  pub session_id : h.session_id < 2 ^ 64

abbrev pub header_bytes : Header → List ℕ
header_bytes h =
    smb2_magic
    ++ (le_bytes 2 header_len
        ++ (le_bytes 2 h.credit_charge
            ++ (le_bytes 4 h.status
                ++ (le_bytes 2 h.command
                    ++ (le_bytes 2 h.credits
                        ++ (le_bytes 4 h.flags
                            ++ (le_bytes 4 h.next_command
                                ++ (le_bytes 8 h.message_id
                                    ++ (le_bytes 4 0
                                        ++ (le_bytes 4 h.tree_id
                                            ++ (le_bytes 8 h.session_id
                                                ++ (replicate 16 0 ++ []))))))))))))

Reads-parse : (h : Header) → IsInRange h → Reads parse (header_bytes h) h
unfolding parse same
Reads-parse h v =
    Reads-bind (Reader.bytes 4) _ smb2_magic _ smb2_magic _ (Reads-bytes 4 smb2_magic refl) (
      Reads-bind Reader.u16 _ (le_bytes 2 64) _ 64 _ (Reads-u16 64 (omega arith)) (
        Reads-bind Reader.u16 _ (le_bytes 2 h.credit_charge) _ h.credit_charge _
          (Reads-u16 h.credit_charge v.credit_charge)
          (Reads-bind Reader.u32 _ (le_bytes 4 h.status) _ h.status _ (Reads-u32 h.status v.status)
            (Reads-bind Reader.u16 _ (le_bytes 2 h.command) _ h.command _
              (Reads-u16 h.command v.command)
              (Reads-bind Reader.u16 _ (le_bytes 2 h.credits) _ h.credits _
                (Reads-u16 h.credits v.credits)
                (Reads-bind Reader.u32 _ (le_bytes 4 h.flags) _ h.flags _
                  (Reads-u32 h.flags v.flags)
                  (Reads-bind Reader.u32 _ (le_bytes 4 h.next_command) _ h.next_command _
                    (Reads-u32 h.next_command v.next_command)
                    (Reads-bind Reader.u64 _ (le_bytes 8 h.message_id) _ h.message_id _
                      (Reads-u64 h.message_id v.message_id)
                      (Reads-bind (Reader.skip 4) _ (le_bytes 4 0) _ tt _
                        (Reads-skip 4 (le_bytes 4 0) refl)
                        (Reads-bind Reader.u32 _ (le_bytes 4 h.tree_id) _ h.tree_id _
                          (Reads-u32 h.tree_id v.tree_id)
                          (Reads-bind Reader.u64 _ (le_bytes 8 h.session_id) _ h.session_id _
                            (Reads-u64 h.session_id v.session_id)
                            (Reads-bind (Reader.skip 16) _ (replicate 16 0) _ tt _
                              (Reads-skip 16 (replicate 16 0) refl) (Reads-pure h)))))))))))))

-- The header that a response carries: the request's identity, the server's flag and ids.
abbrev pub response_header : Header → ℕ → ℕ → ℕ → ℕ → Header
response_header hdr status credits session_id tree_id = record hdr {
  status = status;
  credits = credits;
  flags = bit_or Flags.server_to_redir (bit_and hdr.flags Flags.related_operations);
  next_command = 0;
  session_id = session_id;
  tree_id = tree_id;
}

pub buf-write_response :
    (hdr : Header) (status credits session_id tree_id : ℕ) (w : Writer)
    → (write_response hdr status credits session_id tree_id w).buf
      ≡ w.buf ++ header_bytes (response_header hdr status credits session_id tree_id)
unfolding write_response
buf-write_response hdr status credits session_id tree_id w = simp append_assoc

-- A response header whose fields fit their widths, written behind anything, parses there to the request's credit charge, command
-- and message id, the given status, credits and ids, and no flags but the server's and RELATED.
pub parse-write_response :
    (hdr : Header) (status credits session_id tree_id : ℕ) (w : Writer)
    → IsInRange (response_header hdr status credits session_id tree_id)
    → parse (record {
      buf = (write_response hdr status credits session_id tree_id w).buf;
      pos = length w.buf;
    })
      ≡ some (
        response_header hdr status credits session_id tree_id,
        record {
          buf = (write_response hdr status credits session_id tree_id w).buf;
          pos = length w.buf + 64;
        },
      )
parse-write_response hdr status credits session_id tree_id w v =
    let h = response_header hdr status credits session_id tree_id in
    let bs = (write_response hdr status credits session_id tree_id w).buf in
    (Reads-parse h v).at (record { buf = bs; pos = length w.buf }) []
      (ap (drop (length w.buf)) (buf-write_response hdr status credits session_id tree_id w)
        ∙ drop-append_length w.buf (header_bytes h)
        ∙ sym (append-nil (header_bytes h)))
