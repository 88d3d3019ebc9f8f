-- ===== src/Server/Tests.antt =====
-- Tests of mod.rs, and its theorems at concrete connections.
use smbanything.Base.{
  ℕ, ◌≡◌, refl, inl, true, false, List, [], ◌∷◌, ◌++◌, some, arith, replicate, same,
}
use smbanything.Backing.{empty_backing}
use smbanything.Base.Text.{codes}
use smbanything.Files.Create.{admit, create}
use smbanything.Files.Request.{parse_create}
use smbanything.Files.Handles.{clear_chain}
use smbanything.Files.State.{new_registry, Shared, lookup}
use smbanything.Platform.Samples.{toy}
use smbanything.Proto.Cmd
use smbanything.Proto.Flags
use smbanything.Proto.Status
use smbanything.Proto.Header
use smbanything.Proto.Header.{Header, since_epoch}
use smbanything.Proto.Header.RoundTrip.{header_bytes, response_header}
use smbanything.Server.Answers.{Finished, handle_message-Finished}
use smbanything.Server.Chains.{FailsToCreate, IsRelatedAt, Refuses, here, one_round-create_error}
use smbanything.Server.Execute.{execute}
use smbanything.Server.Gate.{Untouched, execute-Untouched, Protected, execute-Protected}
use smbanything.Server.Invariant.{IsSound}
use smbanything.Server.Limit.{Locked, execute-Locked}
use smbanything.Server.Message.{
  request_of, outcome, next_chain, respond, link, move_on, settle, run_request, Progress, again,
  one_round, handle_message,
}
use smbanything.Server.Moves.{Moves, execute-Moves}
use smbanything.Server.Reach.{Reaches, Reaches-IsSound, serve-Reaches}
use smbanything.Server.Serve.{serve}
use smbanything.Server.Signed.{OnlySigned, serve-OnlySigned}
use smbanything.Server.State.{Ctx, Conn, Outside, Request, new_conn, new_chain, grant_credits}
use smbanything.Session.State.{disk, new_session, tree_kind}
use smbanything.Wire.Reader
use smbanything.Wire.Reader.{Reader, open_at_start}
use smbanything.Wire.Writer.{empty}

abbrev server : Ctx
server = record {
  share_name = codes "anything";
  credentials = record { user = codes "u"; password = codes "pw" };
  volume_serial = 7;
  server_guid = replicate 16 1;
  boot_time = since_epoch 1700000000 0;
}

abbrev outside : Outside
outside = record {
  now = since_epoch 1700000000 0;
  drawn = record { id_bytes = replicate 8 4; nonce = replicate 8 1 };
}

abbrev shared : Shared
shared = record { store = []; next_address = 0; registry = new_registry }

-- A connection that has just been made.
abbrev fresh : Conn
fresh = new_conn 1 shared (empty_backing (codes "label") (since_epoch 1700000000 0)) 0

-- One that is logged in and has the share at tree 1.
abbrev live : Conn
live = record fresh {
  session = record (new_session 1) {
    negotiated = true;
    session_id = 5;
    authenticated = true;
    signing_key = some (replicate 16 3);
    trees = (1, disk) ∷ [];
    next_tree_id = 1;
  };
}

abbrev header : ℕ → ℕ → Header
header command flags = record {
  credit_charge = 1;
  status = 0;
  command = command;
  credits = 1;
  flags = flags;
  next_command = 0;
  message_id = 9;
  tree_id = 1;
  session_id = 5;
}

abbrev request : ℕ → Request
request command = record {
  hdr = header command 0;
  body = [];
  message = header_bytes (header command 0);
  session_id = 5;
  tree_id = 1;
  related = false;
  is_only = true;
}

live-IsSound : IsSound live.session
unfolding lookup
live-IsSound = record {
  bounded = record {
    few = omega arith;
    below = (omega arith, tt);
    distinct = (refl, tt);
    fits = omega arith;
  };
  keyed = λ h. (replicate 16 3, refl);
  settled = λ h. refl;
  unchallenged = λ h. refl;
}

execute-Moves_example :
    Moves toy server live.session (execute toy server outside (request Cmd.logoff) live).1.session
execute-Moves_example = execute-Moves toy server outside (request Cmd.logoff) live

Reaches-IsSound_example :
    IsSound (serve toy server (λ n. outside) (header_bytes (header Cmd.logoff 0)) live).1.session
Reaches-IsSound_example =
    Reaches-IsSound toy server live
      (serve toy server (λ n. outside) (header_bytes (header Cmd.logoff 0)) live).1
      (serve-Reaches toy server (λ n. outside) (header_bytes (header Cmd.logoff 0)) live)
      live-IsSound

serve-Reaches_example :
    Reaches toy server live
      (serve toy server (λ n. outside) (header_bytes (header Cmd.logoff 0)) live).1
serve-Reaches_example =
    serve-Reaches toy server (λ n. outside) (header_bytes (header Cmd.logoff 0)) live

execute-Untouched_example :
    Untouched toy server outside
      (request Cmd.create)
      fresh
      (execute toy server outside (request Cmd.create) fresh).1
execute-Untouched_example = execute-Untouched toy server outside (request Cmd.create) fresh refl

execute-Protected_example :
    Protected toy server outside
      (request Cmd.write)
      live
      (execute toy server outside (request Cmd.write) live)
execute-Protected_example = execute-Protected toy server outside (request Cmd.write) live (inl refl)

handle_message-Finished_example :
    Finished toy server
      (λ n. outside)
      (header_bytes (header Cmd.echo 0))
      (handle_message toy server (λ n. outside) (header_bytes (header Cmd.echo 0)) live).0
handle_message-Finished_example =
    handle_message-Finished toy server (λ n. outside) (header_bytes (header Cmd.echo 0)) live

serve-OnlySigned_example :
    (key : List ℕ) × (live.session.signing_key ≡ some key)
    × OnlySigned toy server
        (λ n. outside)
        (header_bytes (header Cmd.logoff 0))
        live
        key
        (serve toy server (λ n. outside) (header_bytes (header Cmd.logoff 0)) live)
serve-OnlySigned_example =
    serve-OnlySigned toy server (λ n. outside) (header_bytes (header Cmd.logoff 0)) live
      live-IsSound refl

abbrev limited : Conn
limited = record fresh { failed_logons = 1000 }

execute-Locked_example :
    Locked toy server outside
      (request Cmd.session_setup)
      limited
      (execute toy server outside (request Cmd.session_setup) limited).1
execute-Locked_example =
    execute-Locked toy server outside (request Cmd.session_setup) limited (omega arith) refl

-- A CREATE with no body, and a CLOSE that is related to it.
abbrev creating : Header
creating = record (header Cmd.create 0) { next_command = 64 }

abbrev closing : Header
closing = header Cmd.close Flags.related_operations

abbrev compound : List ℕ
compound = header_bytes creating ++ header_bytes closing

abbrev at_create : Progress
at_create = record { offset = 0; chain = new_chain; out = empty; conn = live }

abbrev at_close : Progress
at_close = record {
  offset = 64;
  chain = record new_chain { create_error = some Status.invalid_parameter };
  out = record {
    buf =
        header_bytes
          (record (response_header creating Status.invalid_parameter (grant_credits creating) 5 1) {
            next_command = 80;
          })
        ++ (9 ∷ replicate 15 0);
  };
  conn = live;
}

create_fails :
    FailsToCreate toy server (λ n. outside) compound Status.invalid_parameter at_create live
unfolding Header.parse Reader.bytes Reader.u16 Reader.u32 Reader.u64 Reader.skip Reader.take same
    execute request_of clear_chain create parse_create lookup tree_kind admit
create_fails = (creating, record { buf = compound; pos = 64 }, refl, refl, refl, refl)

create_round : one_round toy server (λ n. outside) compound at_create ≡ again at_close
unfolding one_round Header.parse Reader.bytes Reader.u16 Reader.u32 Reader.u64 Reader.skip
    Reader.take same execute request_of clear_chain create parse_create lookup tree_kind admit
    outcome next_chain respond link move_on settle run_request
create_round = refl

close_related :
    IsRelatedAt toy server (λ n. outside) compound Status.invalid_parameter at_close closing
unfolding Header.parse Reader.bytes Reader.u16 Reader.u32 Reader.u64 Reader.skip Reader.take same
close_related = (record { buf = header_bytes closing; pos = 64 }, refl, refl)

one_round-create_error_example :
    Refuses toy server
      (λ n. outside)
      compound
      Status.invalid_parameter
      live
      closing
      at_close.out.buf
      (one_round toy server (λ n. outside) compound at_close)
one_round-create_error_example =
    one_round-create_error toy server (λ n. outside) compound Status.invalid_parameter at_create
      at_close at_close live closing create_fails create_round here close_related
