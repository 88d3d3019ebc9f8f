-- ===== src/Files/QueryInfo/Truncation.antt =====
-- What QUERY_INFO of files.rs does to an answer that the client's buffer cannot take.
use smbanything.Base.{
  ℕ, ◌+◌, ◌-◌, ◌*◌, ◌/◌, ◌%◌, ◌≤◌, ◌<◌, List, ◌≡◌, ◌⊎◌, inl, inr, refl, ap, Option, none, some,
  Result, ok, err, arith, ltb, ◌==◌, length, take, length-take, Bool-cases,
}
use smbanything.Files.QueryInfo.{truncate_answer, struct_size}
use smbanything.Info.FileClass
use smbanything.Info.FsClass
use smbanything.Info.InfoType
use smbanything.Proto.Status

-- The four classes whose struct ends in a string, with where the string begins and the least buffer.
abbrev pub EndsInString : ℕ → ℕ → ℕ → ℕ → Type 0
EndsInString type class off least =
    ((type ≡ InfoType.file) × (class ≡ FileClass.name) × (off ≡ 4) × (least ≡ 8))
    ⊎ (((type ≡ InfoType.file) × (class ≡ FileClass.all) × (off ≡ 100) × (least ≡ 104))
        ⊎ (((type ≡ InfoType.filesystem) × (class ≡ FsClass.volume) × (off ≡ 18) × (least ≡ 24))
            ⊎ ((type ≡ InfoType.filesystem)
                × (class ≡ FsClass.attribute)
                × (off ≡ 12)
                × (least ≡ 16))))

struct_size_cases :
    (type class n : ℕ)
    → ((off : ℕ) × (least : ℕ) × EndsInString type class off least
        × (struct_size type class n ≡ (least, some off))
        × (off ≤ least)
        × ((o l : ℕ) → EndsInString type class o l → l ≡ least))
      ⊎ (((o l : ℕ) → EndsInString type class o l → l ≡ l + 1)
          × (struct_size type class n ≡ (n, none)))
unfolding struct_size
struct_size_cases type class n = elim (Bool-cases (type == InfoType.file)) [
  | inl file ↦ elim (Bool-cases (class == FileClass.name)) [
    | inl e ↦ inl (4, 8, ground arith, rw (file, e) refl, omega arith, λ o l h. ground arith)
    | inr k ↦ elim (Bool-cases (class == FileClass.all)) [
      | inl e ↦
          inl (100, 104, ground arith, rw (file, k, e) refl, omega arith, λ o l h. ground arith)
      | inr m ↦ inr (λ o l h. ground arith, rw (file, k, m) refl)
    ]
  ]
  | inr other ↦ elim (Bool-cases (type == InfoType.filesystem)) [
    | inl volume ↦ elim (Bool-cases (class == FsClass.volume)) [
      | inl e ↦
          inl (18, 24, ground arith, rw (other, volume, e) refl, omega arith, λ o l h. ground arith)
      | inr k ↦ elim (Bool-cases (class == FsClass.attribute)) [
        | inl e ↦ inl (
          12,
          16,
          ground arith,
          rw (other, volume, k, e) refl,
          omega arith,
          λ o l h. ground arith,
        )
        | inr m ↦ inr (λ o l h. ground arith, rw (other, volume, k, m) refl)
      ]
    ]
    | inr none_such ↦ inr (λ o l h. ground arith, rw (other, none_such) refl)
  ]
]

-- What becomes of an answer: it comes back whole, cut inside the string of its class, or refused.
abbrev pub Truncates : ℕ → ℕ → ℕ → List ℕ → Result (List ℕ × ℕ) → Type 0
Truncates type class output_len buf answer =
    ((length buf ≤ output_len) × (answer ≡ ok (buf, Status.success)))
    ⊎ (((off : ℕ) × (least : ℕ) × (n : ℕ) × (output_len < length buf)
          × EndsInString type class off least
          × (least ≤ output_len)
          × (answer ≡ ok (take n buf, Status.buffer_overflow))
          × (length (take n buf) ≡ n)
          × (off ≤ n)
          × ((n - off) % 2 ≡ 0)
          × (n ≤ output_len)
          × (output_len ≤ n + 1))
        ⊎ ((output_len < length buf)
            × ((off least : ℕ) → EndsInString type class off least → output_len < least)
            × (answer ≡ err Status.info_length_mismatch)))

module _ (type class output_len : ℕ) (buf : List ℕ) where
  whole_or_refused :
      ((off least : ℕ) → EndsInString type class off least → least ≡ least + 1)
      → Truncates type class output_len buf (truncate_answer output_len (length buf, none) buf)
  unfolding truncate_answer
  whole_or_refused no_string = elim (Bool-cases (ltb output_len (length buf))) [
    | inl over ↦
        inr (inr (ground arith, λ off least h. omega (arith, no_string off least h), ground arith))
    | inr fits ↦ inl (ground arith, ground arith)
  ]

  whole_or_cut :
      (off least : ℕ)
      → least ≤ length buf
      → off ≤ least
      → EndsInString type class off least
      → ((o l : ℕ) → EndsInString type class o l → l ≡ least)
      → Truncates type class output_len buf (truncate_answer output_len (least, some off) buf)
  unfolding truncate_answer
  whole_or_cut off least long inside string only =
      let n = off + (output_len - off) / 2 * 2 in
      elim (Bool-cases (ltb output_len (length buf))) [
        | inr fits ↦ inl (ground arith, ground arith)
        | inl over ↦ elim (Bool-cases (ltb output_len least)) [
          | inl short ↦ inr (inr (ground arith, λ o l h. ground (arith, only o l h), ground arith))
          | inr roomy ↦ inr (
              inl (
                off,
                least,
                n,
                ground arith,
                string,
                ground arith,
                rw (roomy, over) refl,
                ground (arith, length-take n buf),
                omega arith,
                omega arith,
                ground arith,
                ground arith,
              ))
        ]
      ]

  -- Every class, every answer at least as long as its struct, every buffer. The answer comes back whole
  -- where it fits. Where it does not, its class is one of the four that end in a string, and the buffer
  -- takes the struct, it is cut inside the string on a whole code unit, is at most one byte shorter than
  -- the buffer, and the status tells of the cut. Where it does not fit and the class is none of the four
  -- or the buffer does not take the struct, the request is refused.
  pub truncate_answer_cases :
      (struct_size type class (length buf)).0 ≤ length buf
      → Truncates type class output_len buf
          (truncate_answer output_len (struct_size type class (length buf)) buf)
  truncate_answer_cases long = elim (struct_size_cases type class (length buf)) [
    | inl (off, least, string, size, inside, only) ↦ rw size (
        whole_or_cut off least (omega (arith, ap (λ (t : ℕ × Option ℕ). t.0) size)) inside string
          only)
    | inr (no_string, size) ↦ rw size (whole_or_refused no_string)
  ]
