-- ===== src/Server/Message.antt =====
-- `Conn::handle_message` of mod.rs: the requests of one message and the responses to them.
use smbanything.Base.{
  ℕ, zero, suc, ◌+◌, ◌-◌, Bool, not, ◌&&◌, ◌||◌, List, Option, none, some, Result, ok, err, ltb,
  leb, ◌==◌, if◌then◌else◌, length, take, drop, bit_and,
}
use smbanything.Files.Handles.{clear_chain}
use smbanything.Platform.{Platform}
use smbanything.Proto.Cmd
use smbanything.Proto.Flags
use smbanything.Proto.Header
use smbanything.Proto.Header.{
  Header, SystemTime, header_len, next_command_offset, write_response, write_error_body,
}
use smbanything.Server.Execute.{execute}
use smbanything.Server.State.{
  Ctx, Conn, Outside, Request, Chain, Reply, new_chain, max_compound_response, grant_credits,
}
use smbanything.Session.Negotiate.{is_smb1, is_smb1_negotiate, smb1_negotiate_response}
use smbanything.Wire.Reader.{open_at_start}
use smbanything.Wire.Writer
use smbanything.Wire.Writer.{Writer, ◌▸◌, empty}

-- What becomes of a message. `panicked` is a patch past the end, `unfinished` a loop out of fuel.
pub data Handled : Type 0 where
  replied : List ℕ → Handled
  dropped panicked unfinished : Handled

abbrev pub unwrap_or : Option ℕ → ℕ → ℕ
unwrap_or none d = d
unwrap_or (some v) d = v

abbrev pub is_related : Header → Bool
is_related hdr = not (bit_and hdr.flags Flags.related_operations == 0)

-- Where a request ends in its chunk: at the next one, or with the message.
abbrev pub request_end : Header → List ℕ → ℕ
request_end hdr chunk = if hdr.next_command == 0 then length chunk else hdr.next_command

abbrev pub bad_next : Header → List ℕ → Bool
bad_next hdr chunk =
    not (hdr.next_command == 0)
    && (ltb hdr.next_command header_len || ltb (length chunk) hdr.next_command)

-- A related request has the identity of the one before it.
unfoldable pub request_of : Header → List ℕ → Chain → Bool → Request
request_of hdr chunk chain is_first = record {
  hdr = hdr;
  body = take (request_end hdr chunk - header_len) (drop header_len chunk);
  message = chunk;
  session_id = if is_related hdr then chain.session_id else hdr.session_id;
  tree_id = if is_related hdr then chain.tree_id else hdr.tree_id;
  related = is_related hdr;
  is_only = is_first && hdr.next_command == 0;
}

abbrev pub start_request : Header → Conn → Conn
start_request hdr s =
    if is_related hdr
    then s
    else record s { files = record s.files { handles = clear_chain s.files.handles } }

module _ (platform : Platform) (ctx : Ctx) where
  abbrev unless_poisoned : Outside → Request → Option ℕ → Conn → Option (Result Reply) × Conn
  unless_poisoned o req none s = execute platform ctx o req s
  unless_poisoned o req (some status) s =
      let ran = execute platform ctx o req s in if req.related then (some (err status), s) else ran

  -- A failed CREATE stands for every related request behind it.
  unfoldable pub outcome : Outside → Request → Chain → Conn → Option (Result Reply) × Conn
  unfolding execute
  outcome o req chain s = unless_poisoned o req chain.create_error s

abbrev chain_tree : Request → Reply → Chain → ℕ
chain_tree req reply chain =
    if req.hdr.command == Cmd.tree_disconnect
    then chain.tree_id
    else unwrap_or reply.tree_id req.tree_id

abbrev keep_first : Option ℕ → ℕ → Option ℕ
keep_first none status = some status
keep_first (some first) status = some first

-- What the rest of the chain inherits.
unfoldable pub next_chain : Request → Option (Result Reply) → Chain → Chain
next_chain req none chain = chain
next_chain req (some (ok reply)) chain = record chain {
  session_id = unwrap_or reply.session_id req.session_id;
  tree_id = chain_tree req reply chain;
}
next_chain req (some (err status)) chain = record chain {
  create_error =
      if req.hdr.command == Cmd.create
      then keep_first chain.create_error status
      else chain.create_error;
}

-- The response, appended.
unfoldable pub respond : Header → Option (Result Reply) → Writer → Writer
unfolding write_response write_error_body grant_credits Writer.bytes
respond hdr none out = out
respond hdr (some (ok reply)) out =
    out
    ▸ write_response hdr reply.status (grant_credits hdr)
        (unwrap_or reply.session_id hdr.session_id) (unwrap_or reply.tree_id hdr.tree_id)
    ▸ Writer.bytes reply.body
respond hdr (some (err status)) out =
    out
    ▸ write_response hdr status (grant_credits hdr) hdr.session_id hdr.tree_id
    ▸ write_error_body

-- The padding and the distance to the next response.
unfoldable pub link : ℕ → Writer → Option Writer
unfolding Writer.align_to Writer.patch_u32
link start out =
    let padded = Writer.align_to 8 out in
    Writer.patch_u32 (start + next_command_offset) (length padded.buf - start) padded

-- The variables of the loop.
pub record Progress : Type 0 where
  pub offset : ℕ
  pub chain : Chain
  pub out : Writer
  pub conn : Conn

-- What one round comes to: the message is done with, or the loop goes on.
pub data Round : Type 0 where
  stop : Handled → Conn → Round
  again : Progress → Round

abbrev pub follow : (Progress → Handled × Conn) → Round → Handled × Conn
follow next (stop handled s) = (handled, s)
follow next (again p) = next p

module _ (platform : Platform) (ctx : Ctx) (outside : ℕ → Outside) (msg : List ℕ) where
  -- Behind a response that another request follows.
  unfoldable pub move_on : Header → Chain → Option Writer → ℕ → Conn → Round
  move_on hdr chain none offset s = stop panicked s
  move_on hdr chain (some linked) offset s =
      if leb (length msg) (offset + hdr.next_command)
      then stop (replied linked.buf) s
      else again
          (record { offset = offset + hdr.next_command; chain = chain; out = linked; conn = s })

  -- Once a request has its answer.
  unfoldable pub settle : Header → Request → Progress → Option (Result Reply) → Conn → Round
  unfolding next_chain respond link move_on
  settle hdr req p answer s =
      let out = respond hdr answer p.out in
      if hdr.next_command == 0
      then stop (replied out.buf) s
      else if ltb max_compound_response (length out.buf)
      then stop dropped s
      else move_on hdr (next_chain req answer p.chain) (link (length p.out.buf) out) p.offset s

  unfoldable pub run_request : Header → List ℕ → Progress → Round
  unfolding outcome request_of settle
  run_request hdr chunk p =
      let req = request_of hdr chunk p.chain (p.offset == 0) in
      let (answer, s) =
        outcome platform ctx (outside p.offset) req p.chain (start_request hdr p.conn) in
      settle hdr req p answer s

  unfoldable pub one_round : Progress → Round
  unfolding run_request
  one_round p =
      let chunk = drop p.offset msg in
      elim (Header.parse (open_at_start chunk)) [
        | none ↦ stop dropped p.conn
        | some (hdr, r) ↦
            if bad_next hdr chunk
            then stop dropped p.conn
            else if hdr.command == Cmd.negotiate && p.conn.session.negotiated
            then stop dropped p.conn
            else run_request hdr chunk p
      ]

  unfoldable pub message_loop : ℕ → Progress → Handled × Conn
  unfolding one_round
  message_loop zero p = (unfinished, p.conn)
  message_loop (suc fuel) p = follow (message_loop fuel) (one_round p)

  -- Each round takes a header at least, so there are fewer rounds than bytes.
  unfoldable pub handle_message : Conn → Handled × Conn
  unfolding message_loop is_smb1
  handle_message s =
      if is_smb1_negotiate msg
      then (replied (smb1_negotiate_response ctx.server_guid ctx.boot_time (outside 0).now), s)
      else if is_smb1 msg
      then (dropped, s)
      else message_loop (length msg + 1)
          (record { offset = 0; chain = new_chain; out = empty; conn = s })
