-- ===== src/Contents/Insertion.antt =====
-- What `ArchiveIndex::insert` of src/archive.rs adds, and what it refuses.
use smbanything.Base.{
  ℕ, ◌+◌, ◌-◌, ◌≤◌, ◌<◌, ◌≡◌, refl, sym, ap, subst, ◌∙◌, ◌⊎◌, inl, inr, Bool, true, false, List, [],
  ◌∷◌, Option, none, some, arith, Option-cases, length, take, take_all, min,
}
use smbanything.Backing.{is_dir}
use smbanything.Contents.Archive.{
  insert, insert_leaf, insert_components, last_name, normalized_key, file_info,
}
use smbanything.Contents.Index.{
  Key, IndexedEntry, ArchiveIndex, same_key, get, put, parse_archive_path,
}
use smbanything.Proto.Header.{SystemTime, u64_max}
use smbanything.Contents.Keys.{length-map, above, above_apart, Between}
use smbanything.Contents.Parents.{
  at_path, HasDirectory, Clashes, Keeps, SameCounts, Unmoved, kept_directory, put-Keeps,
  put-Unmoved, put-get, insert_directory_cases, insert_parents_cases,
}

module _ {T : Type 0} (to_lowercase : List ℕ → List ℕ) where
  module _ (components : List (List ℕ)) (timestamp : SystemTime) where
    module _ (size : ℕ) (content : Option T) where
      -- What stands at the path itself: the directory, or the file, which was not there before.
      abbrev pub HasLeaf : Bool → ArchiveIndex T → ArchiveIndex T → Type 0
      HasLeaf true index index' =
          HasDirectory to_lowercase components index' × SameCounts to_lowercase index index'
      HasLeaf false index index' =
          (c : T) × (content ≡ some c)
          × (at_path to_lowercase components index ≡ none)
          × (at_path to_lowercase components index'
              ≡ some (record {
                info = file_info (last_name components) size timestamp;
                content = some c;
              }))
          × (index'.file_count ≡ index.file_count + 1)
          × (index'.total_size ≡ min (index.total_size + size) u64_max)

      -- Why nothing can stand there: another kind or case of name, any entry for a file, or a file
      -- without its content.
      abbrev pub LeafClashes : Bool → ArchiveIndex T → Type 0
      LeafClashes true index = Clashes to_lowercase components index
      LeafClashes false index =
          ((e : IndexedEntry T) × (at_path to_lowercase components index ≡ some e))
          ⊎ (content ≡ none)

      insert_leaf_cases :
          (is_dir : Bool) (index : ArchiveIndex T)
          → (LeafClashes is_dir index
              × (insert_leaf to_lowercase components is_dir size timestamp content index ≡ none))
            ⊎ ((index' : ArchiveIndex T) × (insert_leaf to_lowercase components is_dir size
                    timestamp content index
                  ≡ some index')
                × HasLeaf is_dir index index'
                × Keeps to_lowercase index index'
                × Unmoved to_lowercase (normalized_key to_lowercase components) index index')
      insert_leaf_cases true index =
          elim (insert_directory_cases to_lowercase components timestamp index) [
            | inl (clash, e) ↦ inl (clash, e)
            | inr (index', e, has, keeps, unmoved, counts) ↦
                inr (index', e, (has, counts), keeps, unmoved)
          ]
      insert_leaf_cases false index = elim (Option-cases (at_path to_lowercase components index)) [
        | inr (e, found) ↦ inl (inl (e, found), rw found refl)
        | inl absent ↦ elim (Option-cases content) [
          | inl bare ↦ inl (inr bare, rw (absent, bare) refl)
          | inr (c, given) ↦
              let key = normalized_key to_lowercase components in
              let made : IndexedEntry T = record {
                info = file_info (last_name components) size timestamp;
                content = some c;
              } in
              let index' : ArchiveIndex T = record {
                entries = put key made index.entries;
                total_size = min (index.total_size + size) u64_max;
                file_count = index.file_count + 1;
              } in
              inr (
                index',
                rw (absent, given) refl,
                (c, given, absent, put-get to_lowercase key made index, refl, refl),
                put-Keeps to_lowercase key made index index' absent refl,
                put-Unmoved to_lowercase key made index index' refl,
              )
        ]
      ]

      same_leaf :
          (is_dir : Bool) (index index1 : ArchiveIndex T)
          → at_path to_lowercase components index1 ≡ at_path to_lowercase components index
          → LeafClashes is_dir index1
          → LeafClashes is_dir index
      same_leaf true index index1 same_place (e, found, why) = (e, sym same_place ∙ found, why)
      same_leaf false index index1 same_place (inl (e, found)) = inl (e, sym same_place ∙ found)
      same_leaf false index index1 same_place (inr bare) = inr bare

      from_leaf :
          (is_dir : Bool) (index index1 index' : ArchiveIndex T)
          → at_path to_lowercase components index1 ≡ at_path to_lowercase components index
          → SameCounts to_lowercase index index1
          → HasLeaf is_dir index1 index'
          → HasLeaf is_dir index index'
      from_leaf true index index1 index' same_place counts (has, more) =
          (has, (more.0 ∙ counts.0, more.1 ∙ counts.1))
      from_leaf false index index1 index' same_place counts (c, given, absent, made, n, total) = (
        c,
        given,
        sym same_place ∙ absent,
        made,
        n ∙ ap (λ (k : ℕ). k + 1) counts.0,
        total ∙ ap (λ (k : ℕ). min (k + size) u64_max) counts.1,
      )

      -- Something stands in the way of the path, above it or at it.
      abbrev pub IsBlocked : Bool → ArchiveIndex T → Type 0
      IsBlocked is_dir index =
          ((d : ℕ) × (1 ≤ d)
            × (d < length components)
            × Clashes to_lowercase (take d components) index)
          ⊎ LeafClashes is_dir index

      -- Every directory above the path is there, the path itself is, and nothing else is different.
      abbrev pub Inserts : Bool → ArchiveIndex T → ArchiveIndex T → Type 0
      Inserts is_dir index index' =
          Between 1 (length components) (λ d. HasDirectory to_lowercase (take d components) index')
          × HasLeaf is_dir index index'
          × Keeps to_lowercase index index'
          × ((j : Key)
              → Between 1 (length components + 1)
                  (λ d. same_key j (above to_lowercase components d) ≡ false)
              → get j index'.entries ≡ get j index.entries)

      insert_components_cases :
          (is_dir : Bool) (index : ArchiveIndex T)
          → 1 ≤ length components
          → (IsBlocked is_dir index
              × (insert_components to_lowercase components is_dir size timestamp content index
                  ≡ none))
            ⊎ ((index' : ArchiveIndex T) × (insert_components to_lowercase components is_dir size
                    timestamp content index
                  ≡ some index')
                × Inserts is_dir index index')
      insert_components_cases is_dir index long =
          let key = normalized_key to_lowercase components in
          let n = length components in
          elim (insert_parents_cases to_lowercase components timestamp (n - 1) 1 index
            (omega arith)) [
              | inl (d, lo, hi, clash, e) ↦
                  inl (inl (d, lo, omega arith, clash), rw (e, insert_components) refl)
              | inr (index1, e, (made, keeps, others, counts)) ↦
                  let same_place : get key index1.entries ≡ get key index.entries =
                    others key (λ d lo hi.
                      above_apart to_lowercase components key n d
                        (length-map to_lowercase components) (omega arith)
                        (λ same_depth. omega arith)) in
                  elim (insert_leaf_cases is_dir index1) [
                    | inl (clash, f) ↦ inl (
                      inr (same_leaf is_dir index index1 same_place clash),
                      rw (e, insert_components) f,
                    )
                    | inr (index', f, has, keeps', unmoved) ↦ inr (
                      index',
                      rw (e, insert_components) f,
                      (
                        (λ d lo hi.
                            kept_directory to_lowercase components timestamp (take d components)
                              index1 index' keeps' (made d lo (omega arith))),
                        from_leaf is_dir index index1 index' same_place counts has,
                        (λ j found h. keeps' j found (keeps j found h)),
                        (λ j out.
                            unmoved j (
                              subst (λ cs. same_key j (normalized_key to_lowercase cs) ≡ false)
                                (take_all components) (out n long (omega arith)))
                            ∙ others j (λ d lo hi. out d lo (omega arith))),
                      ),
                    )
                  ]
            ]

  module _ (raw_name : List ℕ) (is_dir : Bool) (size : ℕ) (timestamp : SystemTime)
      (content : Option T) (index : ArchiveIndex T) where
    -- Adding a path of an archive to any index. A path that is not safe is refused, and an empty one adds
    -- nothing. Any other is either refused or added. When it is refused something is in its way: above it,
    -- or at it for a directory, a file or a name in another case; at it for a file, anything that is
    -- there already or the lack of its content. When it is added, every directory above it is there
    -- under its own name, it is there itself, with the counts of files and bytes raised for a file and
    -- unchanged for a directory, no entry is changed or lost, and no other path is added.
    pub insert_cases :
        ((parse_archive_path raw_name is_dir ≡ none)
          × (insert to_lowercase raw_name is_dir size timestamp content index ≡ none))
        ⊎ (((parse_archive_path raw_name is_dir ≡ some [])
              × (insert to_lowercase raw_name is_dir size timestamp content index ≡ some index))
            ⊎ ((components : List (List ℕ)) × (parse_archive_path raw_name is_dir ≡ some components)
                × (1 ≤ length components)
                × ((IsBlocked components timestamp size content is_dir index
                      × (insert to_lowercase raw_name is_dir size timestamp content index ≡ none))
                    ⊎ ((index' : ArchiveIndex T) × (insert to_lowercase raw_name is_dir size
                            timestamp content index
                          ≡ some index')
                        × Inserts components timestamp size content is_dir index index'))))
    unfolding insert
    insert_cases = elim (Option-cases (parse_archive_path raw_name is_dir)) [
      | inl a ↦ inl (a, rw (insert, a) refl)
      | inr ([], a) ↦ inr (inl (a, rw (insert, a) refl))
      | inr (c ∷ cs, a) ↦
          elim (insert_components_cases (c ∷ cs) timestamp size content is_dir index
            (omega arith)) [
              | inl (blocked, e) ↦
                  inr (inr (c ∷ cs, a, omega arith, inl (blocked, rw (insert, a) e)))
              | inr (index', e, added) ↦
                  inr (inr (c ∷ cs, a, omega arith, inr (index', rw (insert, a) e, added)))
            ]
    ]
