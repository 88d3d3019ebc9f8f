-- ===== src/Files/Read/Outcomes.antt =====
-- Every outcome of `read` of files.rs.
use smbanything.Base.{
  ℕ, ◌-◌, ◌%◌, ◌^◌, ◌≤◌, ◌<◌, List, [], ◌∷◌, Bool, true, false, ◌&&◌, ◌≡◌, ◌⊎◌, inl, inr, refl, ap,
  ◌∙◌, none, some, Result, ok, err, arith, ltb, length, min, part, take, take_all, le_value,
  le_value-le_bytes, ◌==◌, Option-cases, Result-cases, Bool-cases,
}
use smbanything.Base.Text.{is_empty}
use smbanything.Backing.{Backing, FileReader, is_dir}
use smbanything.Files.Handles
use smbanything.Files.Read.{
  read, read_handle, read_response, reader_of, state_of, set_state, max_read_size,
}
use smbanything.Files.Request.{ReadRequest, parse_read}
use smbanything.Files.State.{OpenHandle, FileState}
use smbanything.Proto.Header.{header_len}
use smbanything.Proto.Status
use smbanything.Wire.Writer

-- What a client takes out of a reply: as many bytes as DataLength says, where DataOffset, which counts
-- from the header, says.
abbrev pub delivered : List ℕ → List ℕ
delivered reply = part (le_value (part 2 1 reply) - header_len) (le_value (part 4 4 reply)) reply

delivered-read_response :
    (content : List ℕ) → length content < 2 ^ 32 → delivered (read_response content) ≡ content
unfolding read_response Writer.bytes Writer.u8 Writer.u16 Writer.u32
delivered-read_response content small =
    ap (λ (k : ℕ). take k content) (le_value-le_bytes 4 (length content) small) ∙ take_all content

module _ (req : ReadRequest) (backing : Backing) (h : OpenHandle) (s : FileState) where
  -- The reader of the file: the one cached, or one just opened, which is cached.
  abbrev pub Opens : FileReader → FileState → Type 0
  Opens reader s' =
      (((state_of h s.shared).reader ≡ some reader) × (s' ≡ s))
      ⊎ (((state_of h s.shared).reader ≡ none)
          × (backing.open_file h.path ≡ ok reader)
          × (s' ≡ set_state h (record (state_of h s.shared) { reader = some reader }) s))

  -- A file that is no directory and was opened of the contents that are still served.
  abbrev pub IsReadable : Type 0
  IsReadable = ((state_of h s.shared).valid ≡ true) × (is_dir h.info.kind ≡ false)

  -- The reader's answer for the offset and for the length, cut at the maximum.
  abbrev pub Yields : Result (List ℕ) → FileState → Type 0
  Yields answer s' =
      (reader : FileReader) × Opens reader s'
      × (reader.read_at req.offset (min req.requested max_read_size) ≡ answer)

  -- Too little to answer with: nothing where something was asked for, or less than insisted on.
  abbrev pub IsTooShort : List ℕ → Type 0
  IsTooShort content =
      ((length content ≡ 0) × (1 ≤ req.requested)) ⊎ (length content % 2 ^ 32 < req.minimum_count)

  abbrev pub IsEnough : List ℕ → Type 0
  IsEnough content =
      ((1 ≤ length content) ⊎ (req.requested ≡ 0)) × (req.minimum_count ≤ length content % 2 ^ 32)

  -- Why a READ of an open file fails, with its status and the state after it.
  abbrev pub Fails : ℕ → FileState → Type 0
  Fails e s' =
      ((e ≡ Status.file_closed) × ((state_of h s.shared).valid ≡ false) × (s' ≡ s))
      ⊎ (((e ≡ Status.invalid_device_request)
            × ((state_of h s.shared).valid ≡ true)
            × (is_dir h.info.kind ≡ true)
            × (s' ≡ s))
          ⊎ ((IsReadable
                × ((state_of h s.shared).reader ≡ none)
                × (backing.open_file h.path ≡ err e)
                × (s' ≡ s))
              ⊎ ((IsReadable × Yields (err e) s')
                  ⊎ ((content : List ℕ) × (e ≡ Status.end_of_file)
                      × IsReadable
                      × Yields (ok content) s'
                      × IsTooShort content))))

  -- A READ of an open file fails for one of these reasons, or it replies with what the reader yields.
  abbrev pub Outcome : Result (List ℕ) × FileState → Type 0
  Outcome (ok reply, s') =
      (content : List ℕ) × IsReadable
      × Yields (ok content) s'
      × IsEnough content
      × (length content < 2 ^ 32 → delivered reply ≡ content)
  Outcome (err e, s') = Fails e s'

  reader_of_cases :
      ((e : ℕ) × ((state_of h s.shared).reader ≡ none)
        × (backing.open_file h.path ≡ err e)
        × (reader_of backing h s ≡ (err e, s)))
      ⊎ ((reader : FileReader) × (s' : FileState) × Opens reader s'
          × (reader_of backing h s ≡ (ok reader, s')))
  unfolding reader_of
  reader_of_cases = elim (Option-cases (state_of h s.shared).reader) [
    | inr (reader, a) ↦ inr (reader, s, inl (a, refl), rw (reader_of, a) refl)
    | inl a ↦ elim (Result-cases (backing.open_file h.path)) [
      | inl (e, b) ↦ inl (e, a, b, rw (reader_of, a, b) refl)
      | inr (reader, b) ↦ inr (
        reader,
        set_state h (record (state_of h s.shared) { reader = some reader }) s,
        inr (a, b, refl),
        rw (reader_of, a, b) refl,
      )
    ]
  ]

  too_short : (content : List ℕ) → Bool
  too_short content = is_empty content && ltb 0 (min req.requested max_read_size)

  too_short_cases :
      (content : List ℕ)
      → ((too_short content ≡ true) × (length content ≡ 0) × (1 ≤ req.requested))
        ⊎ ((too_short content ≡ false) × ((1 ≤ length content) ⊎ (req.requested ≡ 0)))
  unfolding too_short
  too_short_cases [] = elim (Bool-cases (req.requested == 0)) [
    | inl nothing ↦ inr (ground arith, inr (ground arith))
    | inr some_bytes ↦ inl (ground arith, refl, ground arith)
  ]
  too_short_cases (c ∷ content) = inr (refl, inl (omega arith))

  read_handle-Outcome : Outcome (read_handle req backing h s)
  unfolding read_handle too_short
  read_handle-Outcome = elim (Bool-cases (state_of h s.shared).valid) [
    | inr dead ↦ rw (read_handle, dead) (inl (refl, dead, refl))
    | inl live ↦ elim (Bool-cases (is_dir h.info.kind)) [
      | inl dir ↦ rw (read_handle, live, dir) (inr (inl (refl, live, dir, refl)))
      | inr file ↦ elim reader_of_cases [
        | inl (e, none_yet, failed, r) ↦
            rw (read_handle, live, file, r) (inr (inr (inl ((live, file), none_yet, failed, refl))))
        | inr (reader, s', opens, r) ↦
            elim (Result-cases (reader.read_at req.offset (min req.requested max_read_size))) [
              | inl (e, a) ↦
                  rw (read_handle, live, file, r, a)
                    (inr (inr (inr (inl ((live, file), (reader, opens, a))))))
              | inr (content, a) ↦ elim (too_short_cases content) [
                | inl (b, empty, asked) ↦
                    rw (read_handle, live, file, r, a, b)
                      (inr (
                        inr (
                          inr (
                            inr (
                              content,
                              refl,
                              (live, file),
                              (reader, opens, a),
                              inl (empty, asked),
                            )))))
                | inr (b, any) ↦
                    elim (Bool-cases (ltb (length content % 2 ^ 32) req.minimum_count)) [
                      | inl c ↦
                          rw (read_handle, live, file, r, a, b, c)
                            (inr (
                              inr (
                                inr (
                                  inr (
                                    content,
                                    refl,
                                    (live, file),
                                    (reader, opens, a),
                                    inr (ground arith),
                                  )))))
                      | inr c ↦
                          rw (read_handle, live, file, r, a, b, c)
                            (
                              content,
                              (live, file),
                              (reader, opens, a),
                              (any, ground arith),
                              delivered-read_response content,
                            )
                    ]
              ]
            ]
      ]
    ]
  ]

-- READ on every body, contents, and state. A body that cannot be read and a file that is not open are
-- refused, and nothing changes. A READ of an open file is refused when the contents were replaced
-- since it was opened, when it is a directory, when the file or its bytes cannot be had, and at its end:
-- when there are no bytes and some were asked for, or fewer than insisted on. Otherwise a client takes out
-- of the reply just the bytes that the reader has for the offset and the length asked for, cut at
-- the maximum, if they are fewer than `2 ^ 32`. The state changes only in that a reader just opened is
-- cached.
pub read_cases :
    (body : List ℕ) (backing : Backing) (related : Bool) (s : FileState)
    → ((e : ℕ) × (parse_read body ≡ err e) × (read body backing related s ≡ (err e, s)))
      ⊎ ((req : ReadRequest) × (parse_read body ≡ ok req)
          × (((Handles.get req.file_id related s.handles ≡ none)
                × (read body backing related s ≡ (err Status.file_closed, s)))
              ⊎ ((id : ℕ) × (h : OpenHandle) × (Handles.get req.file_id related s.handles
                    ≡ some (id, h))
                  × Outcome req backing h s (read body backing related s))))
unfolding read
read_cases body backing related s = elim (Result-cases (parse_read body)) [
  | inl (e, a) ↦ inl (e, a, rw (read, a) refl)
  | inr (req, a) ↦ inr (
    req,
    a,
    elim (Option-cases (Handles.get req.file_id related s.handles)) [
      | inl b ↦ inl (b, rw (read, a, b) refl)
      | inr ((id, h), b) ↦ inr (id, h, b, rw (read, a, b) (read_handle-Outcome req backing h s))
    ],
  )
]
