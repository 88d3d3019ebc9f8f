-- ===== src/Files/QueryDirectory.antt =====
-- `query_directory` of files.rs, the QUERY_DIRECTORY command. The handler runs as one step.
pub mod Cursor
use smbanything.Base.{
  ℕ, ◌+◌, ◌-◌, ◌*◌, ◌/◌, ◌%◌, ◌^◌, List, [], ◌∷◌, ◌++◌, Bool, true, false, not, ◌&&◌, Option, none,
  some, Result, ok, err, leb, ◌==◌, if◌then◌else◌, length, min, max, take, map, bit_and, bit_or,
}
use smbanything.Base.Exec
use smbanything.Base.Exec.{Exec, ◌>>=◌, ◌>>◌}
use smbanything.Base.Text.{is_empty, codes}
use smbanything.Backing.{Backing, NodeInfo, is_dir, synthetic_dir}
use smbanything.Files.Glob.{pattern_matches}
use smbanything.Files.Handles
use smbanything.Files.QueryDirFlags
use smbanything.Files.Read.{state_of, set_state, max_read_size}
use smbanything.Files.Request.{QueryDirectoryRequest, parse_query_directory}
use smbanything.Files.State.{OpenState, OpenHandle, FileState}
use smbanything.Info.Directory.{dir_entry_fixed_len, encode_dir_entries, PageResult}
use smbanything.Path
use smbanything.Path.{SmbPath}
use smbanything.Path.FileId.{file_id}
use smbanything.Proto.Header.{SystemTime, header_len}
use smbanything.Proto.Status
use smbanything.Wire.Reader.{open_at_start, slice_at}
use smbanything.Wire.Utf16.{from_utf16le}
use smbanything.Wire.Writer
use smbanything.Wire.Writer.{Writer, ◌▸◌, empty}

abbrev pub Entry : Type 0
Entry = NodeInfo × ℕ

-- `.`, `..` and what the share lists, each with its file id.
unfoldable pub with_dots : (List ℕ → List ℕ) → SystemTime → SmbPath → List NodeInfo → List Entry
with_dots to_lowercase now path infos =
    (synthetic_dir (codes ".") now, file_id to_lowercase path)
    ∷ (synthetic_dir (codes "..") now, file_id to_lowercase path)
    ∷ map (λ info. (info, file_id to_lowercase (Path.join path info.name))) infos

abbrev cache_entries : OpenHandle → OpenState → Result (List Entry) → Exec FileState (List Entry)
cache_entries h st (err e) s = (err e, s)
cache_entries h st (ok all) s = (ok all, set_state h (record st { dir_entries = some all }) s)

abbrev listed :
    (List ℕ → List ℕ) → SystemTime → OpenHandle → Result (List NodeInfo) → Result (List Entry)
listed to_lowercase now h (err e) = err e
listed to_lowercase now h (ok infos) = ok (with_dots to_lowercase now h.path infos)

abbrev entries_from :
    (List ℕ → List ℕ)
    → Backing
    → SystemTime
    → OpenHandle
    → OpenState
    → Option (List Entry)
    → Exec FileState (List Entry)
entries_from to_lowercase backing now h st (some all) s = (ok all, s)
entries_from to_lowercase backing now h st none s =
    cache_entries h st (listed to_lowercase now h (backing.list h.path)) s

-- The listing of a directory: asked of the share once, and cached.
unfoldable pub entries_of :
    (List ℕ → List ℕ) → Backing → SystemTime → OpenHandle → Exec FileState (List Entry)
entries_of to_lowercase backing now h s =
    let st = state_of h s.shared in entries_from to_lowercase backing now h st st.dir_entries s

-- The flags that start the scan over.
unfoldable pub rewind : ℕ → OpenHandle → OpenHandle
rewind flags h =
    if bit_and flags (bit_or QueryDirFlags.restart_scans QueryDirFlags.reopen) == 0
    then h
    else record h { dir_pos = 0; scanned = false }

-- The entries from a position on that pass the test, each with its position in the whole listing.
-- The second number is the position of the list's head.
unfoldable pub matched_from : (Entry → Bool) → ℕ → ℕ → List Entry → List (ℕ × Entry)
matched_from test pos i [] = []
matched_from test pos i (e ∷ es) =
    let rest = matched_from test pos (i + 1) es in
    if leb pos i && test e then (i, e) ∷ rest else rest

abbrev fixed_or : Option ℕ → ℕ → ℕ
fixed_or none max_len = 1
fixed_or (some fixed) max_len = max_len / fixed

-- `page_cap`
unfoldable pub page_cap : Bool → ℕ → ℕ → ℕ → ℕ
page_cap single class max_len count =
    if single then 1 else min (max (fixed_or (dir_entry_fixed_len class) max_len) 1) count

-- `matched.get(i)`
abbrev pub nth {ℓ} : {A : Type ℓ} → ℕ → List A → Option A
nth n [] = none
nth n (x ∷ xs) = let rest = nth (n - 1) xs in if n == 0 then some x else rest

-- The cursor behind the last entry encoded.
abbrev pub resume : ℕ → Option (ℕ × Entry) → ℕ
resume old none = old
resume old (some (last, e)) = last + 1

unfoldable pub advance : ℕ → ℕ → List (ℕ × Entry) → ℕ
advance old consumed matched =
    if consumed == 0 then old else resume old (nth (consumed - 1) matched)

-- A panic of the encoder, `none`, is an error here.
abbrev of_page : PageResult → Result (Writer × ℕ)
of_page none = err Status.unexpected_io_error
of_page (some r) = r

unfoldable pub query_directory_response : List ℕ → List ℕ
query_directory_response buf =
    (empty
      ▸ Writer.u16 9
      ▸ Writer.u16 (header_len + 8)
      ▸ Writer.u32 (length buf)
      ▸ Writer.bytes buf).buf

-- `handle.dir_pos = …` and `handle.scanned = true` through `get_mut`.
abbrev put : ℕ → OpenHandle → FileState → FileState
put id h s = record s { handles = Handles.write_handle id h s.handles }

unfoldable pub scan :
    QueryDirectoryRequest → List ℕ → ℕ → OpenHandle → List Entry → Exec FileState (List ℕ)
scan req pattern id h all =
    let matched = matched_from (λ e. pattern_matches pattern e.0.name) h.dir_pos 0 all in
    let max_len = min req.output_len max_read_size in
    let single = not (bit_and req.flags QueryDirFlags.return_single_entry == 0) in
    let page = map (λ m. m.1) (take (page_cap single req.class max_len (length matched)) matched) in
    do
      Exec.refuse (is_empty matched)
          (if h.scanned then Status.no_more_files else Status.no_such_file)
      Exec.modify (put id (record h { scanned = true }))
      encoded ←
          Exec.lift
            (of_page (encode_dir_entries req.class page (h.dir_pos % 2 ^ 32) max_len single))
      Exec.modify
          (put id (record h { scanned = true; dir_pos = advance h.dir_pos encoded.1 matched }))
      Exec.pure (query_directory_response encoded.0.buf)

unfoldable pub query_directory :
    (List ℕ → List ℕ) → List ℕ → List ℕ → Backing → SystemTime → Bool → Exec FileState (List ℕ)
query_directory to_lowercase body message backing now related = do
  req ← Exec.lift (parse_query_directory body)
  raw ←
      Exec.need (slice_at (open_at_start message) req.pattern_off req.pattern_len)
        Status.invalid_parameter
  pattern ← Exec.need (from_utf16le raw) Status.object_name_invalid
  looked_up ← Exec.gets (λ s. Handles.get req.file_id related s.handles)
  found ← Exec.need looked_up Status.file_closed
  st ← Exec.gets (λ s. state_of found.1 s.shared)
  Exec.refuse (not st.valid) Status.file_closed
  Exec.refuse (not (is_dir found.1.info.kind)) Status.not_a_directory
  all ← entries_of to_lowercase backing now found.1
  Exec.modify (put found.0 (rewind req.flags found.1))
  scan req pattern found.0 (rewind req.flags found.1) all
