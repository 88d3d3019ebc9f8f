-- ===== src/Info/Directory/Page.antt =====
-- The page of directory entries that `encode_dir_entries` of info.rs builds.
use smbanything.Base.{
  ℕ, suc, ◌+◌, ◌-◌, ◌%◌, ◌^◌, ◌<◌, ◌≤◌, List, [], ◌∷◌, ◌≡◌, ◌⊎◌, refl, ap, ◌∙◌, some, ok, err,
  arith, length, length-append, length-replicate, replicate, Bool, true, false, Bool-cases, inl,
  inr, ◌==◌, ltb, if◌then◌else◌,
}
use smbanything.Backing.{NodeInfo}
use smbanything.Info.Directory.{
  dir_entry_fixed_len, encode_loop, encode_dir_entries, link_previous, entry_start,
  next_multiple_of_8,
}
use smbanything.Info.Directory.Lengths.{write_dir_entry_lem}
use smbanything.Proto.Status
use smbanything.Wire.Utf16.{utf16le}
use smbanything.Wire.Writer
use smbanything.Wire.Writer.{Writer, empty, buf-align_to, padding, patch_u32_lem}

-- The next entry begins where the fit test said, and its link is written inside the buffer.
link_previous_lem :
    (count last_start : ℕ) (out : Writer)
    → 1 ≤ count
    → last_start + 4 ≤ length out.buf
    → (w : Writer) × (link_previous count last_start out ≡ some w)
      × (length w.buf ≡ next_multiple_of_8 (length out.buf))
unfolding link_previous
link_previous_lem count last_start out c l =
    let padded = Writer.align_to 8 out in
    let n : length padded.buf ≡ next_multiple_of_8 (length out.buf) = omega (
      arith,
      ap length (buf-align_to out),
      length-append out.buf (replicate (padding (length out.buf)) 0),
      length-replicate {A = ℕ} (padding (length out.buf)) 0,
    ) in
    let (w, e, a, b, d, k) =
      patch_u32_lem last_start (length padded.buf - last_start) padded (omega (arith, n)) in
    (w, ground (arith, e), k ∙ n)

fixed_at_least : (class fixed : ℕ) → dir_entry_fixed_len class ≡ some fixed → 12 ≤ fixed
unfolding dir_entry_fixed_len
fixed_at_least class fixed h = ground arith

-- From the second entry on the loop always yields a page: what fits, and never more than that.
encode_loop_lem :
    (class fixed start_index max_len : ℕ) (single : Bool) (entries : List (NodeInfo × ℕ))
    (count last_start : ℕ) (out : Writer)
    → dir_entry_fixed_len class ≡ some fixed
    → 1 ≤ count
    → last_start + 4 ≤ length out.buf
    → length out.buf ≤ max_len
    → (w : Writer) × (n : ℕ) × (encode_loop class fixed start_index max_len single entries count
          last_start out
        ≡ some (ok (w, n)))
      × (length w.buf ≤ max_len)
      × (count ≤ n)
      × (n ≤ count + length entries)
unfolding encode_loop
encode_loop_lem class fixed start_index max_len single [] count last_start out h c l m =
    (out, count, refl, m, omega arith, omega arith)
encode_loop_lem class fixed start_index max_len single ((info, file_id) ∷ entries) count last_start
      out h c l m =
    let start = entry_start count out in
    let c0 : (count == 0) ≡ false = ground arith in
    let s0 : start ≡ next_multiple_of_8 (length out.buf) = unfold entry_start in ground arith in
    let (linked, el, nl) = link_previous_lem count last_start out c l in
    let (w, ew, nw) =
      write_dir_entry_lem class fixed ((start_index + count) % 2 ^ 32) file_id info linked h in
    elim (Bool-cases (ltb max_len (start + fixed + length (utf16le info.name)))) [
      | inl full ↦ (out, count, rw (c0, full) refl, m, omega arith, omega arith)
      | inr fits ↦ elim (Bool-cases single) [
        | inl one ↦ (
          w,
          count + 1,
          rw (c0, fits, el, ew, one) refl,
          ground (arith, nw, nl, s0),
          omega arith,
          omega arith,
        )
        | inr many ↦
            let (w', n, e, a, b, d) =
              encode_loop_lem class fixed start_index max_len single entries (count + 1) start w h
                (omega arith) (omega (arith, nw, nl, s0, fixed_at_least class fixed h))
                (ground (arith, nw, nl, s0)) in
            (w', n, rw (c0, fits, el, ew, many) e, a, omega arith, omega arith)
      ]
    ]

start_first : entry_start 0 empty ≡ 0
unfolding entry_start
start_first = refl

link_first : link_previous 0 0 empty ≡ some empty
unfolding link_previous
link_first = refl

encode_loop_first :
    (class fixed start_index max_len : ℕ) (single : Bool) (info : NodeInfo) (file_id : ℕ)
    (entries : List (NodeInfo × ℕ))
    → dir_entry_fixed_len class ≡ some fixed
    → ((max_len < fixed + length (utf16le info.name))
        × (encode_loop class fixed start_index max_len single ((info, file_id) ∷ entries) 0 0 empty
            ≡ some (err Status.info_length_mismatch)))
      ⊎ ((w : Writer) × (n : ℕ) × (encode_loop class fixed start_index max_len single
              ((info, file_id) ∷ entries)
              0
              0
              empty
            ≡ some (ok (w, n)))
          × (length w.buf ≤ max_len)
          × (1 ≤ n)
          × (n ≤ (if single then 1 else suc (length entries))))
unfolding encode_loop
encode_loop_first class fixed start_index max_len true info file_id entries h =
    let (w, ew, nw) =
      write_dir_entry_lem class fixed ((start_index + 0) % 2 ^ 32) file_id info empty h in
    elim (Bool-cases (ltb max_len (entry_start 0 empty + fixed + length (utf16le info.name)))) [
      | inl long ↦ inl (ground (arith, start_first), rw long refl)
      | inr fits ↦ inr (
        w,
        1,
        rw (fits, link_first, ew) refl,
        ground (arith, nw, start_first),
        omega arith,
        omega arith,
      )
    ]
encode_loop_first class fixed start_index max_len false info file_id entries h =
    let (w, ew, nw) =
      write_dir_entry_lem class fixed ((start_index + 0) % 2 ^ 32) file_id info empty h in
    elim (Bool-cases (ltb max_len (entry_start 0 empty + fixed + length (utf16le info.name)))) [
      | inl long ↦ inl (ground (arith, start_first), rw long refl)
      | inr fits ↦
          let (w', n, e, a, b, d) =
            encode_loop_lem class fixed start_index max_len false entries 1 (entry_start 0 empty) w
              h (omega arith) (omega (arith, nw, start_first, fixed_at_least class fixed h))
              (ground (arith, nw, start_first)) in
          inr (w', n, rw (fits, link_first, ew) e, a, b, ground (arith, d))
    ]

-- A page of a known class, for any listing with an entry: the first entry is too long for the buffer and the
-- request is refused for it, or the page fits the buffer and holds at least one entry and at most the
-- entries given, one if a single entry was asked for. No link is ever written outside the page.
pub encode_dir_entries_cases :
    (class fixed start_index max_len : ℕ) (single : Bool) (info : NodeInfo) (file_id : ℕ)
    (entries : List (NodeInfo × ℕ))
    → dir_entry_fixed_len class ≡ some fixed
    → ((max_len < fixed + length (utf16le info.name))
        × (encode_dir_entries class ((info, file_id) ∷ entries) start_index max_len single
            ≡ some (err Status.info_length_mismatch)))
      ⊎ ((w : Writer) × (n : ℕ) × (encode_dir_entries class
              ((info, file_id) ∷ entries)
              start_index
              max_len
              single
            ≡ some (ok (w, n)))
          × (length w.buf ≤ max_len)
          × (1 ≤ n)
          × (n ≤ (if single then 1 else suc (length entries))))
unfolding encode_dir_entries
encode_dir_entries_cases class fixed start_index max_len single info file_id entries h =
    rw (encode_dir_entries, h)
      (encode_loop_first class fixed start_index max_len single info file_id entries h)
