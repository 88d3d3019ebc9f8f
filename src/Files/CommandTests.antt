-- ===== src/Files/CommandTests.antt =====
-- The commands of files.rs at concrete requests.
use smbanything.Base.{
  ℕ, List, [], ◌∷◌, ◌++◌, true, false, ◌≡◌, ◌≢◌, ◌⊎◌, inr, refl, none, some, ok, err, arith, length,
  take, drop, replicate, le_bytes,
}
use smbanything.Base.Text.{codes, as_bytes}
use smbanything.Backing.{Backing, NodeInfo, FileReader, file, empty_backing}
use smbanything.Files.State.{OpenState, OpenHandle, FileState, new_state}
use smbanything.Files.Handles.{insert, get, invalidate_all}
use smbanything.Path.{SmbPath, root}
use smbanything.Proto.Status
use smbanything.Files.FileId.{has_create_context, max_access_context, max_access_tag}
use smbanything.Files.Request.{CreateRequest, ReadRequest, parse_create, parse_read}
use smbanything.Files.Create.{
  create, insert_new, create_response, wants_max_access, admit, refuse_writes, check_disposition,
  request_path, check_node, finish,
}
use smbanything.Path
use smbanything.Wire.Reader.{slice_at}
use smbanything.Wire.Writer
use smbanything.Wire.Utf16.{from_utf16le}
use smbanything.Files.Create.Admission.{create_writing, create_cases, IsRefusal, Admitted}
use smbanything.Files.Read.{read}
use smbanything.Files.Read.Outcomes.{Outcome, read_cases}
use smbanything.Files.Read.Replies.{read-invalidate_all}
use smbanything.Base.{same}
use smbanything.Base.Text.{byte_eq_ignore_ascii_case}
use smbanything.Files.Glob.{match_budget, dos_star_loop, glob_match, pattern_matches}
use smbanything.Files.Glob.Reference.{Agrees, matches, glob_match-Agrees}
use smbanything.Files.Tests.{now, movies, double, handle_of, fresh, one_state}

-- A CREATE body with the given access, disposition and options, that names the root.
abbrev create_body : ℕ → ℕ → ℕ → List ℕ
create_body access disposition options =
    le_bytes 2 57
    ++ replicate 22 0
    ++ le_bytes 4 access
    ++ replicate 8 0
    ++ le_bytes 4 disposition
    ++ le_bytes 4 options
    ++ replicate 12 0

abbrev create_request : ℕ → ℕ → ℕ → CreateRequest
create_request access disposition options = record {
  desired_access = access;
  create_disposition = disposition;
  create_options = options;
  name_off = 0;
  name_len = 0;
  contexts_off = 0;
  contexts_len = 0;
}

abbrev pub share : Backing
share = empty_backing (codes "share") now

parse_create_lem : parse_create (create_body 1 1 0x1000) ≡ ok (create_request 1 1 0x1000)
unfolding parse_create
parse_create_lem = refl

create_writing_example :
    (e : ℕ) × IsRefusal e
    × (create double (create_body 1 1 0x1000) [] share 1 fresh ≡ (err e, fresh))
    × (create double (create_body 1 1 0x1000) (1 ∷ []) share 1 fresh ≡ (err e, fresh))
create_writing_example =
    create_writing double (create_body 1 1 0x1000) [] (1 ∷ []) share share 1 fresh fresh
      (create_request 1 1 0x1000) parse_create_lem (inr (inr one_bit))
  where
    one_bit : ◌≢◌ {A = ℕ} 0x1000 0
    one_bit = omega arith

create_cases_example :
    ((e : ℕ) × (create double (create_body 1 1 1) [] share 1 fresh ≡ (err e, fresh)))
    ⊎ ((req : CreateRequest) × (path : SmbPath) × (info : NodeInfo) × Admitted
          (create_body 1 1 1)
          []
          share
          req
          path
          info
        × (create double (create_body 1 1 1) [] share 1 fresh ≡ (
          ok (create_response info fresh.handles.next_id (wants_max_access req [])),
          (insert_new double 1 path info fresh).1,
        )))
create_cases_example = create_cases double (create_body 1 1 1) [] share 1 fresh

-- The root opens: the table then has one file, under id 1.
length-create_root :
    length (create double (create_body 1 1 1) [] share 1 fresh).1.handles.open_files ≡ 1
unfolding create admit insert_new insert parse_create refuse_writes check_disposition request_path
    slice_at from_utf16le Path.parse empty_backing check_node finish
length-create_root = refl

abbrev read_body : ℕ → List ℕ
read_body n =
    le_bytes 2 49
    ++ replicate 2 0
    ++ le_bytes 4 n
    ++ replicate 8 0
    ++ le_bytes 8 1
    ++ le_bytes 8 1
    ++ replicate 4 0

abbrev read_request : ℕ → ReadRequest
read_request n = record { requested = n; offset = 0; file_id = 1; minimum_count = 0 }

parse_read_lem : parse_read (read_body 4) ≡ ok (read_request 4)
unfolding parse_read
parse_read_lem = refl

read-invalidate_all_example :
    read
      (read_body 4)
      share
      false
      (record (record fresh { shared = one_state }) { shared = invalidate_all one_state })
    ≡ (
      err Status.file_closed,
      record (record fresh { shared = one_state }) { shared = invalidate_all one_state },
    )
read-invalidate_all_example =
    read-invalidate_all (read_body 4) share false (record fresh { shared = one_state })
      (read_request 4) parse_read_lem (refl, tt)

-- A share that holds one file, with the bytes of "data".
abbrev notes : FileReader
notes = record { read_at = λ offset len. ok (take len (drop offset (codes "data"))) }

abbrev notes_handle : OpenHandle
notes_handle = record (handle_of 1) { info = record movies { kind = file } }

abbrev notes_state : OpenState
notes_state = record new_state { reader = some notes }

abbrev notes_open : FileState
notes_open = record {
  handles = record { open_files = (1, notes_handle) ∷ []; next_id = 2; last_created = none };
  shared = record one_state { store = (0, notes_state) ∷ [] };
}

read_cases_example :
    ((e : ℕ) × (parse_read (read_body 4) ≡ err e)
      × (read (read_body 4) share false notes_open ≡ (err e, notes_open)))
    ⊎ ((req : ReadRequest) × (parse_read (read_body 4) ≡ ok req)
        × (((get req.file_id false notes_open.handles ≡ none)
              × (read (read_body 4) share false notes_open ≡ (err Status.file_closed, notes_open)))
            ⊎ ((id : ℕ) × (h : OpenHandle) × (get req.file_id false notes_open.handles
                  ≡ some (id, h))
                × Outcome req share h notes_open (read (read_body 4) share false notes_open))))
read_cases_example = read_cases (read_body 4) share false notes_open

abbrev texts : List ℕ
texts = codes "<.txt"

glob_match-Agrees_example :
    Agrees 100 (glob_match texts (codes "a.b.TXT") 100) (matches texts (codes "a.b.TXT"))
glob_match-Agrees_example = glob_match-Agrees texts (codes "a.b.TXT") 100

-- DOS_STAR takes in the last dot of a name too.
glob_match_over_last_dot : (glob_match (codes "<txt") (codes "a.txt") 100).0 ≡ true
unfolding glob_match dos_star_loop byte_eq_ignore_ascii_case
glob_match_over_last_dot = refl

glob_match_last_dot : (glob_match texts (codes "a.b.TXT") 100).0 ≡ true
unfolding glob_match dos_star_loop byte_eq_ignore_ascii_case
glob_match_last_dot = refl

glob_match_not_last : (glob_match texts (codes "a.txt.bak") 100).0 ≡ false
unfolding glob_match dos_star_loop byte_eq_ignore_ascii_case
glob_match_not_last = refl

pattern_matches_lem : pattern_matches texts (codes "a.TXT") ≡ true
unfolding pattern_matches same as_bytes glob_match match_budget dos_star_loop
    byte_eq_ignore_ascii_case
pattern_matches_lem = refl

has_create_context_found : has_create_context (max_access_context 7) max_access_tag ≡ true
unfolding has_create_context max_access_context Writer.u32 Writer.zeros Writer.u16 same
has_create_context_found = refl
