-- ===== src/Contents/Sorted.antt =====
-- Every index that the methods of src/archive.rs build is sorted, so its listings are the children.
use smbanything.Base.{
  ℕ, zero, suc, ◌+◌, ◌-◌, ◌≡◌, refl, sym, ap, subst, ◌⊎◌, inl, inr, Bool, true, false, not, ◌||◌,
  List, [], ◌∷◌, Option, none, some, ok, err, arith, if◌then◌else◌, if_cases, Bool-cases,
  Option-cases, length, take, same, same→eq, same_refl,
}
use smbanything.Backing.{is_dir}
use smbanything.Contents.Archive.{
  insert_directory, insert_parents, insert, insert_leaf, insert_components, keep_file, last_name,
  normalized_key, infos, list, entry,
}
use smbanything.Contents.Index.{
  Key, IndexedEntry, ArchiveIndex, str_lt, key_lt, same_key, get, put, parse_archive_path,
}
use smbanything.Contents.Listing.{Before, IsSorted, children, Before-trans, range-children}
use smbanything.Base.Text.{is_empty}
use smbanything.Path.{SmbPath}
use smbanything.Proto.Status
use smbanything.Proto.Header.{SystemTime}

str_total : (xs ys : List ℕ) → str_lt xs ys ≡ false → same xs ys ≡ false → str_lt ys xs ≡ true
unfolding str_lt same
str_total [] [] h e = absurd (ground (arith, e))
str_total [] (y ∷ ys) h e = absurd (ground (arith, h))
str_total (x ∷ xs) [] h e = refl
str_total (x ∷ xs) (y ∷ ys) h e = ground (arith, h, e, str_total xs ys)

key_total : (ps qs : Key) → key_lt ps qs ≡ false → same_key ps qs ≡ false → key_lt qs ps ≡ true
unfolding key_lt same_key
key_total [] [] h e = absurd (ground (arith, e))
key_total [] (q ∷ qs) h e = absurd (ground (arith, h))
key_total (p ∷ ps) [] h e = refl
key_total (p ∷ ps) (q ∷ qs) h e = elim (Bool-cases (same p q)) [
  | inl pq ↦
      let eq = same→eq p q pq in
      let qp : same q p ≡ true = subst (λ t. same t p ≡ true) eq (same_refl p) in
      let rest = key_total ps qs (ground (arith, h, pq)) (ground (arith, e, pq)) in
      ground (arith, qp, rest)
  | inr pq ↦ let back = str_total p q (ground (arith, h)) pq in ground (arith, back)
]

pub same_key→eq : (ps qs : Key) → same_key ps qs ≡ true → ps ≡ qs
unfolding same_key
same_key→eq [] [] h = refl
same_key→eq [] (q ∷ qs) h = absurd (ground (arith, h))
same_key→eq (p ∷ ps) [] h = absurd (ground (arith, h))
same_key→eq (p ∷ ps) (q ∷ qs) h =
    let first = same→eq p q (ground (arith, h)) in
    let rest = same_key→eq ps qs (ground (arith, h)) in cc (first, rest)

module _ {V : Type 0} where
  put-Before :
      (key j : Key) (v : V) (m : List (Key × V))
      → key_lt j key ≡ true
      → Before j m
      → Before j (put key v m)
  unfolding put
  put-Before key j v [] h b = (h, tt)
  put-Before key j v ((k, w) ∷ m) h b =
      if_cases (Before j) (key_lt key k) (λ e. (h, b))
        (λ e.
          if_cases (Before j) (same_key key k) (λ s. (h, b.1))
            (λ s. (b.0, put-Before key j v m h b.1)))

  pub put-IsSorted : (key : Key) (v : V) (m : List (Key × V)) → IsSorted m → IsSorted (put key v m)
  unfolding put
  put-IsSorted key v [] s = (tt, tt)
  put-IsSorted key v ((k, w) ∷ m) s =
      if_cases IsSorted (key_lt key k) (λ e. ((e, Before-trans key k m e s.0), s))
        (λ e.
          if_cases IsSorted (same_key key k)
            (λ q. (subst (λ t. Before t m) (sym (same_key→eq key k q)) s.0, s.1))
            (λ q. (put-Before key k v m (key_total key k e q) s.0, put-IsSorted key v m s.1)))

module _ {T : Type 0} (to_lowercase : List ℕ → List ℕ) where
  -- No index, or a sorted one.
  abbrev pub StaysSorted : Option (ArchiveIndex T) → Type 0
  StaysSorted none = Unit
  StaysSorted (some index) = IsSorted index.entries

  insert_directory-StaysSorted :
      (components : List (List ℕ)) (timestamp : SystemTime) (index : ArchiveIndex T)
      → IsSorted index.entries
      → StaysSorted (insert_directory to_lowercase components timestamp index)
  unfolding insert_directory
  insert_directory-StaysSorted components timestamp index s =
      elim (Option-cases (get (normalized_key to_lowercase components) index.entries)) [
        | inl a ↦ rw a (put-IsSorted _ _ index.entries s)
        | inr (existing, a) ↦ rw a (
            if_cases {x = none} {y = some index} StaysSorted
              (not (is_dir existing.info.kind)
                || not (same existing.info.name (last_name components)))
              (λ h. tt) (λ h. s))
      ]

  insert_parents-StaysSorted :
      (more depth : ℕ) (components : List (List ℕ)) (timestamp : SystemTime)
      (index : ArchiveIndex T)
      → IsSorted index.entries
      → StaysSorted (insert_parents to_lowercase more depth components timestamp index)
  unfolding insert_parents
  insert_parents-StaysSorted zero depth components timestamp index s = s
  insert_parents-StaysSorted (suc more) depth components timestamp index s =
      elim (Option-cases (insert_directory to_lowercase (take depth components) timestamp index)) [
        | inl a ↦ rw (a, insert_parents, StaysSorted) tt
        | inr (index', a) ↦
            let s' : IsSorted index'.entries =
              subst StaysSorted a
                (insert_directory-StaysSorted (take depth components) timestamp index s) in
            rw (a, insert_parents, StaysSorted)
              (insert_parents-StaysSorted more (depth + 1) components timestamp index' s')
      ]

  keep_file-StaysSorted :
      (found : Option (IndexedEntry T)) (content : Option T) (name : List ℕ) (key : Key) (size : ℕ)
      (timestamp : SystemTime) (index : ArchiveIndex T)
      → IsSorted index.entries
      → StaysSorted (keep_file to_lowercase found content name key size timestamp index)
  keep_file-StaysSorted (some existing) content name key size timestamp index s = tt
  keep_file-StaysSorted none none name key size timestamp index s = tt
  keep_file-StaysSorted none (some content) name key size timestamp index s =
      put-IsSorted key _ index.entries s

  module _ (raw_name : List ℕ) (is_dir : Bool) (size : ℕ) (timestamp : SystemTime)
      (content : Option T) where
    insert_leaf-StaysSorted :
        (components : List (List ℕ)) (index : ArchiveIndex T)
        → IsSorted index.entries
        → StaysSorted (insert_leaf to_lowercase components is_dir size timestamp content index)
    insert_leaf-StaysSorted components index s =
        if_cases StaysSorted is_dir (λ h. insert_directory-StaysSorted components timestamp index s)
          (λ h. keep_file-StaysSorted _ content _ _ size timestamp index s)

    insert_components-StaysSorted :
        (components : List (List ℕ)) (index : ArchiveIndex T)
        → IsSorted index.entries
        → StaysSorted
            (insert_components to_lowercase components is_dir size timestamp content index)
    insert_components-StaysSorted components index s =
        elim (Option-cases
          (insert_parents to_lowercase (length components - 1) 1 components timestamp index)) [
            | inl a ↦ rw (a, insert_components, StaysSorted) tt
            | inr (index', a) ↦
                let s' : IsSorted index'.entries = subst StaysSorted a (
                  insert_parents-StaysSorted (length components - 1) 1 components timestamp index
                    s) in
                rw (a, insert_components, StaysSorted)
                  (insert_leaf-StaysSorted components index' s')
          ]

    -- Adding any path of an archive to a sorted index fails or leaves a sorted index.
    pub insert-StaysSorted :
        (index : ArchiveIndex T)
        → IsSorted index.entries
        → StaysSorted (insert to_lowercase raw_name is_dir size timestamp content index)
    unfolding insert
    insert-StaysSorted index s = elim (Option-cases (parse_archive_path raw_name is_dir)) [
      | inl a ↦ rw (a, insert, StaysSorted) tt
      | inr (components, a) ↦
          rw (a, insert, StaysSorted)
            (if_cases StaysSorted (is_empty components) (λ h. s)
              (λ h. insert_components-StaysSorted components index s))
    ]

  -- What `list` answers in a sorted index: an error for a path that is not there or is a file, and for a
  -- directory the nodes of all paths that extend its own by one name, and of no other, in the
  -- index's order.
  pub list_cases :
      (path : SmbPath) (index : ArchiveIndex T)
      → IsSorted index.entries
      → ((entry to_lowercase path index ≡ none)
          × (list to_lowercase path index ≡ err Status.object_path_not_found))
        ⊎ ((e : IndexedEntry T) × (entry to_lowercase path index ≡ some e)
            × (list to_lowercase path index ≡ (
                if is_dir e.info.kind
                then ok
                    (infos (children (normalized_key to_lowercase path.components) index.entries))
                else err Status.not_a_directory)))
  unfolding list entry
  list_cases path index s =
      let parent = normalized_key to_lowercase path.components in
      elim (Option-cases (get parent index.entries)) [
        | inl a ↦ inl (a, rw a refl)
        | inr (e, a) ↦ elim (Bool-cases (is_dir e.info.kind)) [
          | inl d ↦
              inr (e, a, rw (a, d) (ap (λ m. ok (infos m)) (range-children parent index.entries s)))
          | inr d ↦ inr (e, a, rw (a, d) refl)
        ]
      ]
