-- ===== src/Server/Commands.antt =====
-- The arms of `execute` of mod.rs, with `file_command` and `ipc_command`.
use smbanything.Base.{
  ℕ, ◌+◌, ◌%◌, ◌^◌, Bool, true, false, not, ◌&&◌, List, Option, none, some, Result, ok, err, ◌==◌,
  if◌then◌else◌,
}
use smbanything.Base.Exec.{Exec}
use smbanything.Files.Close
use smbanything.Files.Create
use smbanything.Files.Handles.{close_all, close_tree}
use smbanything.Files.QueryDirectory.{query_directory}
use smbanything.Files.QueryInfo.{query_info}
use smbanything.Files.Read
use smbanything.Files.State.{FileState}
use smbanything.Pipe
use smbanything.Pipe.{Pipe}
use smbanything.Platform.{Platform}
use smbanything.Proto.Cmd
use smbanything.Proto.Status
use smbanything.Server.State.{
  Ctx, Conn, Outside, Request, Reply, reply_ok, with_status, with_session, with_tree,
  record_failed_logon, clear_failed_logons, logon_limit_reached,
}
use smbanything.Session.Negotiate
use smbanything.Session.Setup
use smbanything.Session.State.{TreeKind, disk, ipc, SessionState, tree_kind, remove_tree}
use smbanything.Session.Trees.{tree_connect, simple_ack}

-- The handlers of one component, on the connection.
module _ {A : Type 0} where
  abbrev pub on_session : Exec SessionState A → Exec Conn A
  on_session f s = let (r, session) = f s.session in (r, record s { session = session })

  abbrev pub on_files : Exec FileState A → Exec Conn A
  on_files f s = let (r, files) = f s.files in (r, record s { files = files })

  abbrev pub on_pipe : Exec (Option Pipe) A → Exec Conn A
  on_pipe f s = let (r, pipe) = f s.pipe in (r, record s { pipe = pipe })

-- `.map(f)` on the handler's result.
abbrev pub answered : {A : Type 0} → (A → Reply) → Result A × Conn → Result Reply × Conn
answered f (ok a, s) = (ok (f a), s)
answered f (err e, s) = (err e, s)

abbrev pub reply_status : List ℕ × ℕ → Reply
reply_status (body, status) = with_status (reply_ok body) status

module _ (platform : Platform) (ctx : Ctx) (outside : Outside) (req : Request) where
  abbrev pub negotiate : Exec Conn Reply
  negotiate s =
      answered reply_ok
        (on_session (Negotiate.negotiate req.body ctx.server_guid ctx.boot_time outside.now) s)

  -- A refusal counts, a success clears both counts, and the challenge does neither.
  abbrev pub count_logon : Result (ℕ × List ℕ) × Conn → Result Reply × Conn
  count_logon (ok (status, body), s) = (
    ok (with_session (with_status (reply_ok body) status) s.session.session_id),
    if status == Status.success
        then record (clear_failed_logons s) { session = record s.session { failed_logons = 0 } }
        else s,
  )
  count_logon (err e, s) = (
    err e,
    if e == Status.logon_failure
        then record (record_failed_logon s) {
          session = record s.session { failed_logons = (s.session.failed_logons + 1) % 2 ^ 32 };
        }
        else s,
  )

  abbrev pub session_setup : Exec Conn Reply
  session_setup s =
      if not s.session.negotiated
      then (err Status.invalid_parameter, s)
      else if logon_limit_reached s
      then (err Status.logon_failure, s)
      else count_logon (
          on_session
            (Setup.session_setup platform req.body req.message ctx.credentials outside.drawn) s)

  -- The key stays: the reply is still signed.
  abbrev pub logoff : Exec Conn Reply
  logoff s = (
    ok (reply_ok simple_ack),
    record s {
      session = record s.session { authenticated = false; session_id = 0 };
      files = close_all s.files;
      pipe = none;
    },
  )

  abbrev pub clear_pipe : TreeKind → Conn → Conn
  clear_pipe disk s = s
  clear_pipe ipc s = record s { pipe = none }

  abbrev connected : Result (List ℕ × TreeKind × ℕ) × Conn → Result Reply × Conn
  connected (ok (body, kind, tree_id), s) =
      (ok (with_tree (reply_ok body) tree_id), clear_pipe kind s)
  connected (err e, s) = (err e, s)

  abbrev pub connect_tree : Exec Conn Reply
  connect_tree s = connected (on_session (tree_connect req.body req.message ctx.share_name) s)

  abbrev disconnected : Option TreeKind → Conn → Result Reply × Conn
  disconnected none s = (err Status.network_name_deleted, s)
  disconnected (some kind) s = (
    ok (reply_ok simple_ack),
    clear_pipe kind (record s { files = close_tree req.tree_id s.files }),
  )

  abbrev pub disconnect_tree : Exec Conn Reply
  disconnect_tree s =
      let (kind, session) = remove_tree req.tree_id s.session in
      disconnected kind (record s { session = session })

  abbrev pub is_srvsvc_pipe : Conn → Bool
  is_srvsvc_pipe s = on_ipc (tree_kind req.tree_id s.session) && is_open s.pipe
    where
      on_ipc : Option TreeKind → Bool
      on_ipc none = false
      on_ipc (some disk) = false
      on_ipc (some ipc) = true

      is_open : Option Pipe → Bool
      is_open none = false
      is_open (some pipe) = true

  -- `file_command`. QUERY_INFO changes nothing.
  abbrev pub file_command : Exec Conn Reply
  file_command s =
      if req.hdr.command == Cmd.close
      then answered reply_ok (on_files (Close.close req.body req.related) s)
      else if req.hdr.command == Cmd.create
      then answered reply_ok
          (on_files (Create.create platform.grow req.body req.message s.contents req.tree_id) s)
      else if req.hdr.command == Cmd.read
      then answered reply_ok (on_files (Read.read req.body s.contents req.related) s)
      else if req.hdr.command == Cmd.query_directory
      then answered reply_ok (
          on_files
            (query_directory platform.to_lowercase req.body req.message s.contents ctx.boot_time
              req.related)
            s)
      else if req.hdr.command == Cmd.query_info
      then answered reply_status (
        query_info platform.to_lowercase req.body s.contents s.files ctx.boot_time ctx.volume_serial
            req.related,
        s,
      )
      else (err Status.not_supported, s)

  -- `ipc_command`
  abbrev pub ipc_command : Exec Conn Reply
  ipc_command s =
      if req.hdr.command == Cmd.create
      then answered reply_ok (on_pipe (Pipe.create req.body req.message) s)
      else if req.hdr.command == Cmd.close
      then answered reply_ok (on_pipe (Pipe.close req.body) s)
      else if req.hdr.command == Cmd.read
      then answered reply_ok (on_pipe (Pipe.read req.body) s)
      else (err Status.not_supported, s)

  abbrev by_tree : Option TreeKind → Exec Conn Reply
  by_tree none s = (err Status.network_name_deleted, s)
  by_tree (some disk) s = file_command s
  by_tree (some ipc) s = ipc_command s

  abbrev pub tree_command : Exec Conn Reply
  tree_command s = by_tree (tree_kind req.tree_id s.session) s

  abbrev refused_write : Option TreeKind → ℕ
  refused_write none = Status.media_write_protected
  refused_write (some disk) = Status.media_write_protected
  refused_write (some ipc) = Status.file_closed

  abbrev pub write : Exec Conn Reply
  write s =
      if is_srvsvc_pipe s
      then answered reply_ok (on_pipe (Pipe.write req.body req.message ctx.share_name) s)
      else (err (refused_write (tree_kind req.tree_id s.session)), s)

  abbrev pub ioctl : Exec Conn Reply
  ioctl s =
      if is_srvsvc_pipe s
      then answered reply_status (on_pipe (Pipe.transceive req.body req.message ctx.share_name) s)
      else (err Status.not_supported, s)
