-- ===== src/Files/Replacement.antt =====
-- The queries of files.rs on files that were open when the contents were replaced.
use smbanything.Base.{ℕ, List, Bool, ◌≡◌, refl, some, ok, err, Option-cases, inl, inr}
use smbanything.Backing.{Backing}
use smbanything.Files.Handles
use smbanything.Files.Handles.{invalidate_all}
use smbanything.Files.Handles.Invalidation.{IsRegistered}
use smbanything.Files.QueryDirectory.{query_directory}
use smbanything.Files.QueryInfo.{query_info}
use smbanything.Files.Read.Replies.{state_of-invalidate_all}
use smbanything.Files.Request.{
  QueryInfoRequest, parse_query_info, QueryDirectoryRequest, parse_query_directory,
}
use smbanything.Files.State.{FileState}
use smbanything.Proto.Header.{SystemTime}
use smbanything.Proto.Status
use smbanything.Wire.Reader.{open_at_start, slice_at}
use smbanything.Wire.Utf16.{from_utf16le}

-- After a replacement of the contents, with every open state registered before it, a QUERY_INFO whose
-- body can be read is refused as closed, whatever file and class it names.
pub query_info-invalidate_all :
    (to_lowercase : List ℕ → List ℕ) (body : List ℕ) (backing : Backing) (s : FileState)
    (created : SystemTime) (serial : ℕ) (related : Bool) (req : QueryInfoRequest)
    → parse_query_info body ≡ ok req
    → IsRegistered s.shared
    → query_info to_lowercase body backing
        (record s { shared = invalidate_all s.shared })
        created
        serial
        related
      ≡ err Status.file_closed
unfolding query_info
query_info-invalidate_all to_lowercase body backing s created serial related req parsed reg =
    elim (Option-cases (Handles.get req.file_id related s.handles)) [
      | inl missing ↦ rw (query_info, parsed, missing) refl
      | inr (found, e) ↦
          rw (query_info, parsed, e, state_of-invalidate_all found.1 s.shared reg) refl
    ]

-- After a replacement of the contents, with every open state registered before it, a QUERY_DIRECTORY
-- whose body and pattern can be read is refused as closed and changes nothing: no listing that was
-- cached before is handed out, and none is asked of the new contents.
pub query_directory-invalidate_all :
    (to_lowercase : List ℕ → List ℕ) (body message : List ℕ) (backing : Backing) (now : SystemTime)
    (related : Bool) (s : FileState) (req : QueryDirectoryRequest) (raw pattern : List ℕ)
    → parse_query_directory body ≡ ok req
    → slice_at (open_at_start message) req.pattern_off req.pattern_len ≡ some raw
    → from_utf16le raw ≡ some pattern
    → IsRegistered s.shared
    → query_directory to_lowercase body message backing now related
        (record s { shared = invalidate_all s.shared })
      ≡ (err Status.file_closed, record s { shared = invalidate_all s.shared })
unfolding query_directory
query_directory-invalidate_all to_lowercase body message backing now related s req raw pattern
      parsed sliced decoded reg =
    elim (Option-cases (Handles.get req.file_id related s.handles)) [
      | inl missing ↦ rw (query_directory, parsed, sliced, decoded, missing) refl
      | inr (found, e) ↦
          rw
            (
              query_directory,
              parsed,
              sliced,
              decoded,
              e,
              state_of-invalidate_all found.1 s.shared reg,
            )
            refl
    ]
