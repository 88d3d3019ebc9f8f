-- ===== src/Server/State.antt =====
-- The records of mod.rs, and the counters of refused logons.
use smbanything.Base.{ℕ, ◌+◌, ◌*◌, ◌-◌, ◌^◌, Bool, List, Option, none, some, leb, min, max}
use smbanything.Backing.{Backing}
use smbanything.Files.Handles.{invalidate_all}
use smbanything.Files.State.{FileState, Shared, new_handles}
use smbanything.Pipe.{Pipe}
use smbanything.Proto.Header.{Header, SystemTime}
use smbanything.Proto.Status
use smbanything.Session.Setup.{Credentials, Drawn}
use smbanything.Session.State.{SessionState, new_session}

abbrev pub max_credits : ℕ
max_credits = 512

abbrev pub max_server_logon_failures : ℕ
max_server_logon_failures = 1000

abbrev pub max_failed_logons : ℕ
max_failed_logons = 5

abbrev pub max_compound_response : ℕ
max_compound_response = 8 * 1024 * 1024

-- `Ctx`: what a server never changes.
pub record Ctx : Type 0 where
  pub share_name : List ℕ
  pub credentials : Credentials
  pub volume_serial : ℕ
  pub server_guid : List ℕ
  pub boot_time : SystemTime

-- `Conn`, beside what its `Ctx` shares with the other connections: the contents with the open files
-- registered on them, and the count of refused logons.
pub record Conn : Type 0 where
  pub session : SessionState
  pub files : FileState
  pub pipe : Option Pipe
  pub contents : Backing
  pub failed_logons : ℕ

-- What a request takes from outside: the clock and the random numbers.
pub record Outside : Type 0 where
  pub now : SystemTime
  pub drawn : Drawn

pub record Request : Type 0 where
  pub hdr : Header
  pub body : List ℕ
  pub message : List ℕ
  pub session_id : ℕ
  pub tree_id : ℕ
  pub related : Bool
  pub is_only : Bool

pub record Chain : Type 0 where
  pub session_id : ℕ
  pub tree_id : ℕ
  pub create_error : Option ℕ

-- `Chain::default`
abbrev pub new_chain : Chain
new_chain = record { session_id = 2 ^ 64 - 1; tree_id = 2 ^ 32 - 1; create_error = none }

pub record Reply : Type 0 where
  pub status : ℕ
  pub body : List ℕ
  pub session_id : Option ℕ
  pub tree_id : Option ℕ

-- `Reply::ok`, and what `status`, `session` and `tree` make of it.
abbrev pub reply_ok : List ℕ → Reply
reply_ok body = record { status = Status.success; body = body; session_id = none; tree_id = none }

abbrev pub with_status : Reply → ℕ → Reply
with_status reply status = record reply { status = status }

abbrev pub with_session : Reply → ℕ → Reply
with_session reply session_id = record reply { session_id = some session_id }

abbrev pub with_tree : Reply → ℕ → Reply
with_tree reply tree_id = record reply { tree_id = some tree_id }

-- `Conn::new`, of a server that has these shared parts.
abbrev pub new_conn : ℕ → Shared → Backing → ℕ → Conn
new_conn id shared contents failed_logons = record {
  session = new_session id;
  files = record { handles = new_handles; shared = shared };
  pipe = none;
  contents = contents;
  failed_logons = failed_logons;
}

-- `Contents::replace`
unfoldable pub replace : Backing → Conn → Conn
unfolding invalidate_all
replace backing s = record s {
  files = record s.files { shared = invalidate_all s.files.shared };
  contents = backing;
}

-- `record_failed_logon` saturates.
unfoldable pub record_failed_logon : Conn → Conn
record_failed_logon s = record s { failed_logons = min (s.failed_logons + 1) (2 ^ 32 - 1) }

unfoldable pub clear_failed_logons : Conn → Conn
clear_failed_logons s = record s { failed_logons = 0 }

unfoldable pub logon_limit_reached : Conn → Bool
logon_limit_reached s = leb max_server_logon_failures s.failed_logons

unfoldable pub grant_credits : Header → ℕ
grant_credits hdr = max 1 (min hdr.credits max_credits)
