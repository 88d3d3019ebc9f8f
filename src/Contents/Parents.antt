-- ===== src/Contents/Parents.antt =====
-- The directories that `ArchiveIndex::insert` of src/archive.rs makes above a path.
use smbanything.Base.{
  ℕ, zero, suc, ◌+◌, ◌≤◌, ◌<◌, ◌≡◌, refl, sym, ap, subst, ◌∙◌, ◌⊎◌, inl, inr, true, false, List,
  Option, none, some, arith, Bool-cases, Option-cases, length, take, same, same→eq,
}
use smbanything.Backing.{is_dir}
use smbanything.Contents.Archive.{
  insert_directory, insert_parents, last_name, normalized_key, directory,
}
use smbanything.Contents.Index.{Key, IndexedEntry, ArchiveIndex, same_key, get, put}
use smbanything.Contents.Sorted.{same_key→eq}
use smbanything.Proto.Header.{SystemTime}
use smbanything.Contents.Keys.{
  same_key_refl, get-put, above, length-above, above_apart, Between, first_or_later,
}

module _ {T : Type 0} (to_lowercase : List ℕ → List ℕ) where
  -- The entry under a path, whatever the case of its letters.
  abbrev pub at_path : List (List ℕ) → ArchiveIndex T → Option (IndexedEntry T)
  at_path components index = get (normalized_key to_lowercase components) index.entries

  -- A directory stands there, under a name of the same letters.
  abbrev pub HasDirectory : List (List ℕ) → ArchiveIndex T → Type 0
  HasDirectory components index =
      (e : IndexedEntry T) × (at_path components index ≡ some e)
      × (is_dir e.info.kind ≡ true)
      × (e.info.name ≡ last_name components)

  -- A file stands there, or a directory under a name in another case.
  abbrev pub Clashes : List (List ℕ) → ArchiveIndex T → Type 0
  Clashes components index =
      (e : IndexedEntry T) × (at_path components index ≡ some e)
      × ((is_dir e.info.kind ≡ false) ⊎ (same e.info.name (last_name components) ≡ false))

  -- No entry is changed or lost.
  abbrev pub Keeps : ArchiveIndex T → ArchiveIndex T → Type 0
  Keeps index index' =
      (j : Key) (e : IndexedEntry T) → get j index.entries ≡ some e → get j index'.entries ≡ some e

  abbrev pub SameCounts : ArchiveIndex T → ArchiveIndex T → Type 0
  SameCounts index index' =
      (index'.file_count ≡ index.file_count) × (index'.total_size ≡ index.total_size)

  abbrev pub Unmoved : Key → ArchiveIndex T → ArchiveIndex T → Type 0
  Unmoved key index index' =
      (j : Key) → same_key j key ≡ false → get j index'.entries ≡ get j index.entries

  pub put-Keeps :
      (key : Key) (v : IndexedEntry T) (index index' : ArchiveIndex T)
      → get key index.entries ≡ none
      → index'.entries ≡ put key v index.entries
      → Keeps index index'
  put-Keeps key v index index' absent e j found h =
      let other : same_key j key ≡ false = elim (Bool-cases (same_key j key)) [
        | inl jk ↦
            let same_place : get key index.entries ≡ some found =
              subst (λ t. get t index.entries ≡ some found) (same_key→eq j key jk) h in
            absurd (cc (absent, same_place))
        | inr no_match ↦ no_match
      ] in
      ap (get j) e ∙ get-put j key v index.entries ∙ rw other h

  pub put-Unmoved :
      (key : Key) (v : IndexedEntry T) (index index' : ArchiveIndex T)
      → index'.entries ≡ put key v index.entries
      → Unmoved key index index'
  put-Unmoved key v index index' e j other =
      ap (get j) e ∙ get-put j key v index.entries ∙ rw other refl

  pub put-get :
      (key : Key) (v : IndexedEntry T) (index : ArchiveIndex T)
      → get key (put key v index.entries) ≡ some v
  put-get key v index = get-put key key v index.entries ∙ rw (same_key_refl key) refl

  pub insert_directory_cases :
      (components : List (List ℕ)) (timestamp : SystemTime) (index : ArchiveIndex T)
      → (Clashes components index
          × (insert_directory to_lowercase components timestamp index ≡ none))
        ⊎ ((index' : ArchiveIndex T) × (insert_directory to_lowercase components timestamp index
              ≡ some index')
            × HasDirectory components index'
            × Keeps index index'
            × Unmoved (normalized_key to_lowercase components) index index'
            × SameCounts index index')
  unfolding insert_directory
  insert_directory_cases components timestamp index =
      let key = normalized_key to_lowercase components in
      elim (Option-cases (get key index.entries)) [
        | inl absent ↦
            let made = directory (last_name components) timestamp in
            let index' : ArchiveIndex T = record index { entries = put key made index.entries } in
            inr (
              index',
              rw (insert_directory, absent) refl,
              (made, put-get key made index, refl, refl),
              put-Keeps key made index index' absent refl,
              put-Unmoved key made index index' refl,
              (refl, refl),
            )
        | inr (e, found) ↦ elim (Bool-cases (is_dir e.info.kind)) [
          | inr file ↦ inl ((e, found, inl file), rw (insert_directory, found, file) refl)
          | inl dir ↦ elim (Bool-cases (same e.info.name (last_name components))) [
            | inr other ↦ inl ((e, found, inr other), rw (insert_directory, found, dir, other) refl)
            | inl name ↦ inr (
              index,
              rw (insert_directory, found, dir, name) refl,
              (e, found, dir, same→eq e.info.name (last_name components) name),
              (λ j f h. h),
              (λ j other. refl),
              (refl, refl),
            )
          ]
        ]
      ]

  module _ (components : List (List ℕ)) (timestamp : SystemTime) where
    abbrev pub Others : ℕ → ℕ → ArchiveIndex T → ArchiveIndex T → Type 0
    Others lo hi index index' =
        (j : Key)
        → Between lo hi (λ d. same_key j (above to_lowercase components d) ≡ false)
        → get j index'.entries ≡ get j index.entries

    abbrev pub ParentsMade : ℕ → ℕ → ArchiveIndex T → ArchiveIndex T → Type 0
    ParentsMade lo hi index index' =
        Between lo hi (λ d. HasDirectory (take d components) index')
        × Keeps index index'
        × Others lo hi index index'
        × SameCounts index index'

    pub kept_directory :
        (cs : List (List ℕ)) (index index' : ArchiveIndex T)
        → Keeps index index'
        → HasDirectory cs index
        → HasDirectory cs index'
    kept_directory cs index index' keeps (e, found, dir, name) =
        (e, keeps (normalized_key to_lowercase cs) e found, dir, name)

    pub insert_parents_cases :
        (more depth : ℕ) (index : ArchiveIndex T)
        → depth + more ≤ length components
        → ((d : ℕ) × (depth ≤ d)
            × (d < depth + more)
            × Clashes (take d components) index
            × (insert_parents to_lowercase more depth components timestamp index ≡ none))
          ⊎ ((index' : ArchiveIndex T) × (insert_parents to_lowercase more depth components
                  timestamp index
                ≡ some index')
              × ParentsMade depth (depth + more) index index')
    unfolding insert_parents
    insert_parents_cases zero depth index h = inr (
      index,
      refl,
      ((λ d lo hi. absurd (omega arith)), (λ j e found. found), (λ j out. refl), (refl, refl)),
    )
    insert_parents_cases (suc more) depth index h =
        elim (insert_directory_cases (take depth components) timestamp index) [
          | inl (clash, e) ↦
              inl (depth, omega arith, omega arith, clash, rw (insert_parents, e) refl)
          | inr (index1, e, has, keeps, unmoved, counts) ↦
              let end : depth + 1 + more ≡ depth + suc more = omega arith in
              elim (insert_parents_cases more (depth + 1) index1 (omega arith)) [
                | inl (d, lo, hi, (f, found, why), failed) ↦
                    let apart =
                      above_apart to_lowercase components (above to_lowercase components d) d depth
                        (length-above to_lowercase components d (omega arith)) (omega arith)
                        (λ same_depth. omega arith) in
                    inl (
                      d,
                      omega arith,
                      omega arith,
                      (f, sym (unmoved (above to_lowercase components d) apart) ∙ found, why),
                      rw (insert_parents, e) failed,
                    )
                | inr (index', e', (made, keeps', others, counts')) ↦ inr (
                  index',
                  rw (insert_parents, e) e',
                  (
                    first_or_later depth (depth + suc more)
                        (λ d. HasDirectory (take d components) index')
                        (kept_directory (take depth components) index1 index' keeps' has)
                        (λ d lo hi. made d lo (omega arith)),
                    (λ j f found. keeps' j f (keeps j f found)),
                    (λ j out.
                        others j (λ d lo hi. out d (omega arith) (omega arith))
                        ∙ unmoved j (out depth (omega arith) (omega arith))),
                    (counts'.0 ∙ counts.0, counts'.1 ∙ counts.1),
                  ),
                )
              ]
        ]
