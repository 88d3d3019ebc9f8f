-- ===== src/Files/Read/Replies.antt =====
-- What `read` of files.rs replies, and when.
use smbanything.Base.{
  ℕ, List, [], ◌∷◌, Bool, true, false, ◌≡◌, inl, inr, refl, subst, some, Result, ok, err, arith,
  ◌==◌, Option-cases, Result-cases, Bool-cases,
}
use smbanything.Backing.{Backing, FileReader, is_dir}
use smbanything.Files.Handles
use smbanything.Files.Handles.{invalidate_all}
use smbanything.Files.Handles.Invalidation.{IsRegistered, AllDead, invalidate_all-AllDead}
use smbanything.Files.Read.{read, read_handle, reader_of, state_of, set_state, state_or_dead}
use smbanything.Files.Request.{ReadRequest, parse_read}
use smbanything.Files.State.{Shared, OpenState, OpenHandle, FileState, lookup}
use smbanything.Files.State.Maps.{lookup-insert_entry}
use smbanything.Proto.Status

-- A read that is admitted to its reader, up to the reader's answer.
abbrev pub Reads : ReadRequest → OpenHandle → FileState → Type 0
Reads req h s = ((state_of h s.shared).valid ≡ true) × (is_dir h.info.kind ≡ false)

valid-state_of :
    (k : ℕ) (store : List (ℕ × OpenState))
    → AllDead store
    → (state_or_dead (lookup k store)).valid ≡ false
unfolding lookup
valid-state_of k [] d = refl
valid-state_of k ((j, st) ∷ store) d = elim (Bool-cases (j == k)) [
  | inl here ↦ rw here d.0.not_valid
  | inr there ↦ rw there (valid-state_of k store d.1)
]

pub state_of-invalidate_all :
    (h : OpenHandle) (shared : Shared)
    → IsRegistered shared
    → (state_of h (invalidate_all shared)).valid ≡ false
unfolding state_of
state_of-invalidate_all h shared reg =
    valid-state_of h.state (invalidate_all shared).store (invalidate_all-AllDead shared reg)

read_handle_closed :
    (req : ReadRequest) (backing : Backing) (h : OpenHandle) (s : FileState)
    → (state_of h s.shared).valid ≡ false
    → read_handle req backing h s ≡ (err Status.file_closed, s)
unfolding read_handle
read_handle_closed req backing h s dead = rw (read_handle, dead) refl

-- After a replacement of the contents, with every open state registered before it, a READ whose body
-- can be read is refused as closed and changes nothing, whatever file it names and whatever the new
-- contents are.
pub read-invalidate_all :
    (body : List ℕ) (backing : Backing) (related : Bool) (s : FileState) (req : ReadRequest)
    → parse_read body ≡ ok req
    → IsRegistered s.shared
    → read body backing related (record s { shared = invalidate_all s.shared })
      ≡ (err Status.file_closed, record s { shared = invalidate_all s.shared })
unfolding read
read-invalidate_all body backing related s req parsed reg =
    let s' : FileState = record s { shared = invalidate_all s.shared } in
    elim (Option-cases (Handles.get req.file_id related s.handles)) [
      | inl missing ↦ rw (read, parsed, missing) refl
      | inr (found, e) ↦
          rw (read, parsed, e)
            (read_handle_closed req backing found.1 s' (
              unfold state_of in
              valid-state_of found.1.state s'.shared.store (invalidate_all-AllDead s.shared reg)))
    ]

state_of-set_state :
    (h : OpenHandle) (st : OpenState) (s : FileState) → state_of h (set_state h st s).shared ≡ st
unfolding state_of set_state
state_of-set_state h st s =
    rw (lookup-insert_entry h.state h.state st s.shared.store) (ground arith)

reader_of_set :
    (backing : Backing) (h : OpenHandle) (st : OpenState) (reader : FileReader) (s : FileState)
    → st.reader ≡ some reader
    → reader_of backing h (set_state h st s) ≡ (ok reader, set_state h st s)
unfolding reader_of
reader_of_set backing h st reader s e = rw (reader_of, state_of-set_state h st s, e) refl

abbrev StaysCached : Backing → OpenHandle → Result FileReader × FileState → Type 0
StaysCached backing h (ok reader, s) = reader_of backing h s ≡ (ok reader, s)
StaysCached backing h (err e, s) = Unit

StaysCached_lem :
    (backing backing' : Backing) (h : OpenHandle) (s : FileState)
    → StaysCached backing' h (reader_of backing h s)
unfolding reader_of
StaysCached_lem backing backing' h s = elim (Option-cases (state_of h s.shared).reader) [
  | inr (r, cached) ↦ rw (reader_of, cached) (rw (reader_of, cached) refl)
  | inl none_yet ↦ elim (Result-cases (backing.open_file h.path)) [
    | inl (e, failed) ↦ rw (reader_of, none_yet, failed) tt
    | inr (r, fresh) ↦
        let st = record (state_of h s.shared) { reader = some r } in
        rw (reader_of, none_yet, fresh) (reader_of_set backing' h st r s refl)
  ]
]

-- The reader of a file is opened once: after the first READ it is cached, and no later READ opens
-- another, whatever the share is by then.
pub reader_of_cached :
    (backing backing' : Backing) (h : OpenHandle) (s s' : FileState) (reader : FileReader)
    → reader_of backing h s ≡ (ok reader, s')
    → reader_of backing' h s' ≡ (ok reader, s')
reader_of_cached backing backing' h s s' reader opened =
    subst (StaysCached backing' h) opened (StaysCached_lem backing backing' h s)
