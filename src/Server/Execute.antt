-- ===== src/Server/Execute.antt =====
-- `Conn::execute` of mod.rs.
use smbanything.Base.{
  ℕ, Bool, not, ◌&&◌, ◌||◌, Option, none, some, Result, ok, err, ◌==◌, if◌then◌else◌,
}
use smbanything.Base.Exec.{Exec}
use smbanything.Platform.{Platform}
use smbanything.Proto.Cmd
use smbanything.Proto.Status
use smbanything.Server.Commands
use smbanything.Server.State.{Ctx, Conn, Outside, Request, Reply, reply_ok}
use smbanything.Session.Trees.{simple_ack}

abbrev pub needs_session : ℕ → Bool
needs_session command =
    not (command == Cmd.negotiate || command == Cmd.session_setup || command == Cmd.echo)

abbrev pub file_commands : ℕ → Bool
file_commands command =
    command == Cmd.create
    || command == Cmd.close
    || command == Cmd.read
    || command == Cmd.query_directory
    || command == Cmd.query_info

module _ (platform : Platform) (ctx : Ctx) (outside : Outside) (req : Request) where
  abbrev command : ℕ
  command = req.hdr.command

  -- The `match` on the command. LOCK, CHANGE_NOTIFY, OPLOCK_BREAK and unknown codes end it.
  unfoldable pub run_command : Exec Conn Reply
  run_command s =
      if command == Cmd.negotiate
      then Commands.negotiate platform ctx outside req s
      else if command == Cmd.session_setup
      then Commands.session_setup platform ctx outside req s
      else if command == Cmd.logoff
      then Commands.logoff platform ctx outside req s
      else if command == Cmd.tree_connect
      then Commands.connect_tree platform ctx outside req s
      else if command == Cmd.tree_disconnect
      then Commands.disconnect_tree platform ctx outside req s
      else if command == Cmd.echo
      then (ok (reply_ok simple_ack), s)
      else if command == Cmd.write
      then Commands.write platform ctx outside req s
      else if command == Cmd.set_info || command == Cmd.flush
      then (err Status.media_write_protected, s)
      else if file_commands command
      then Commands.tree_command platform ctx outside req s
      else if command == Cmd.ioctl
      then Commands.ioctl platform ctx outside req s
      else (err Status.not_supported, s)

  unfoldable pub lacks_session : Conn → Bool
  lacks_session s =
      needs_session command
      && (not s.session.authenticated || not (req.session_id == s.session.session_id))

  -- The gate on the session, and the command behind it.
  unfoldable pub gated : Exec Conn Reply
  unfolding lacks_session run_command
  gated s = if lacks_session s then (err Status.user_session_deleted, s) else run_command s

  abbrev answer_some : Result Reply × Conn → Option (Result Reply) × Conn
  answer_some (r, s) = (some r, s)

  -- CANCEL alone is answered with silence.
  unfoldable pub execute : Conn → Option (Result Reply) × Conn
  unfolding gated
  execute s =
      if command == Cmd.cancel
      then (if req.is_only then (none, s) else (some (err Status.not_supported), s))
      else answer_some (gated s)
