-- ===== src/Files/QueryTests.antt =====
-- The queries of files.rs at concrete requests.
use smbanything.Base.{
  ℕ, ◌<◌, ◌≤◌, List, [], ◌∷◌, ◌++◌, Bool, true, false, ◌≡◌, refl, ok, err, arith, length, drop,
  replicate, le_bytes,
}
use smbanything.Files.State.{FileState}
use smbanything.Files.Handles.{invalidate_all}
use smbanything.Proto.Status
use smbanything.Base.{map}
use smbanything.Base.Text.{to_ascii_lowercase}
use smbanything.Files.QueryInfo.{query_info}
use smbanything.Files.QueryDirectory.{query_directory}
use smbanything.Files.Request.{
  QueryInfoRequest, parse_query_info, QueryDirectoryRequest, parse_query_directory,
}
use smbanything.Files.Replacement.{query_info-invalidate_all, query_directory-invalidate_all}
use smbanything.Wire.Reader.{slice_at}
use smbanything.Wire.Utf16.{from_utf16le}
use smbanything.Files.QueryInfo.{struct_size, truncate_answer}
use smbanything.Files.QueryInfo.Truncation.{Truncates, truncate_answer_cases}
use smbanything.Files.QueryDirectory.{Entry, matched_from, advance}
use smbanything.Files.QueryDirectory.Cursor.{matched_from-advance}
use smbanything.Files.Tests.{now, movies, fresh, one_state}
use smbanything.Files.CommandTests.{share}

abbrev long_label : List ℕ
long_label = replicate 30 1

truncate_answer_cases_example :
    Truncates 2 1 24 long_label
      (truncate_answer 24 (struct_size 2 1 (length long_label)) long_label)
truncate_answer_cases_example =
    truncate_answer_cases 2 1 24 long_label (unfold struct_size in omega arith)

abbrev listing : List Entry
listing = (movies, 1) ∷ (movies, 2) ∷ []

abbrev any_entry : Entry → Bool
any_entry e = true

matched_from-advance_example :
    (matched_from any_entry (advance 0 1 (matched_from any_entry 0 0 listing)) 0 listing
      ≡ drop 1 (matched_from any_entry 0 0 listing))
    × (0 < advance 0 1 (matched_from any_entry 0 0 listing))
    × (advance 0 1 (matched_from any_entry 0 0 listing) ≤ length listing)
matched_from-advance_example =
    matched_from-advance any_entry 0 1 listing (omega arith) (unfold matched_from in omega arith)

abbrev info_body : List ℕ
info_body =
    le_bytes 2 41
    ++ (1 ∷ 4 ∷ [])
    ++ le_bytes 4 100
    ++ replicate 16 0
    ++ le_bytes 8 1
    ++ le_bytes 8 1

abbrev info_request : QueryInfoRequest
info_request = record { type = 1; class = 4; output_len = 100; file_id = 1 }

parse_query_info_lem : parse_query_info info_body ≡ ok info_request
unfolding parse_query_info
parse_query_info_lem = refl

abbrev stale : FileState
stale = record fresh { shared = one_state }

query_info-invalidate_all_example :
    query_info
      (map to_ascii_lowercase)
      info_body
      share
      (record stale { shared = invalidate_all stale.shared })
      now
      0
      false
    ≡ err Status.file_closed
query_info-invalidate_all_example =
    query_info-invalidate_all (map to_ascii_lowercase) info_body share stale now 0 false
      info_request parse_query_info_lem (refl, tt)

abbrev listing_body : List ℕ
listing_body =
    le_bytes 2 33
    ++ (1 ∷ 0 ∷ [])
    ++ replicate 4 0
    ++ le_bytes 8 1
    ++ le_bytes 8 1
    ++ replicate 4 0
    ++ le_bytes 4 4096

abbrev listing_request : QueryDirectoryRequest
listing_request = record {
  class = 1;
  flags = 0;
  file_id = 1;
  pattern_off = 0;
  pattern_len = 0;
  output_len = 4096;
}

parse_query_directory_lem : parse_query_directory listing_body ≡ ok listing_request
unfolding parse_query_directory
parse_query_directory_lem = refl

query_directory-invalidate_all_example :
    query_directory
      (map to_ascii_lowercase)
      listing_body
      []
      share
      now
      false
      (record stale { shared = invalidate_all stale.shared })
    ≡ (err Status.file_closed, record stale { shared = invalidate_all stale.shared })
query_directory-invalidate_all_example =
    query_directory-invalidate_all (map to_ascii_lowercase) listing_body [] share now false stale
      listing_request [] [] parse_query_directory_lem (unfold slice_at in refl)
      (unfold from_utf16le in refl) (refl, tt)
