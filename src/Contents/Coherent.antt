-- ===== src/Contents/Coherent.antt =====
-- The contract of the trait `Backing`, and that `RootBacking` of src/root.rs keeps it.
use smbanything.Base.{
  ℕ, ◌≡◌, refl, ap, ◌∙◌, ◌⊎◌, inl, inr, true, List, [], ◌∷◌, Option, none, some, Result, ok, err,
  if_cases, Bool-cases, Option-cases,
}
use smbanything.Backing.{file, dir, NodeInfo, FileReader, Backing, empty_backing, synthetic_dir}
use smbanything.Contents.Root.{
  Folder, RootBacking, readme_name, in_folder, Located, at_root, at_readme, in_archive, locate,
  stat_at, list_at, open_at, readme_info, root_backing,
}
use smbanything.Base.Text.{is_empty, eq_ignore_ascii_case}
use smbanything.Path.{SmbPath, root, is_root, split_first}
use smbanything.Proto.Header.{SystemTime}
use smbanything.Proto.Status

module _ (stat : Result NodeInfo) (list : Result (List NodeInfo))
    (open_file : Result FileReader) where
  -- A directory is listed and cannot be opened, a file is not listed, and what has no node has
  -- neither a listing nor a reader.
  abbrev pub Agree : Type 0
  Agree =
      ((i : NodeInfo) × (entries : List NodeInfo) × (stat ≡ ok i)
        × (i.kind ≡ dir)
        × (list ≡ ok entries)
        × (open_file ≡ err Status.file_is_a_directory))
      ⊎ (((i : NodeInfo) × (stat ≡ ok i) × (i.kind ≡ file) × (list ≡ err Status.not_a_directory))
          ⊎ ((e : ℕ) × (e' : ℕ) × (e'' : ℕ) × (stat ≡ err e)
              × (list ≡ err e')
              × (open_file ≡ err e'')))

pub record IsCoherent (b : Backing) : Type 0 where
  pub at : (p : SmbPath) → Agree (b.stat p) (b.list p) (b.open_file p)
  pub top : (entries : List NodeInfo) × (b.list root ≡ ok entries)

pub empty_backing-IsCoherent :
    (label : List ℕ) (now : SystemTime) → IsCoherent (empty_backing label now)
unfolding empty_backing is_root
empty_backing-IsCoherent label now = record {
  at = λ p. elim (Bool-cases (is_root p)) [
    | inl h ↦ rw h (inl (synthetic_dir [] now, [], refl, refl, refl, refl))
    | inr h ↦ rw h (inr (inr (_, _, _, refl, refl, refl)))
  ];
  top = ([], refl);
}

-- A folder is a directory over contents that keep the contract.
abbrev pub IsFolder : Folder → Type 0
IsFolder folder = (folder.info.kind ≡ dir) × IsCoherent folder.backing

abbrev pub ArchiveCoherent : Option Folder → Type 0
ArchiveCoherent none = Unit
ArchiveCoherent (some folder) = IsFolder folder

abbrev Sits : Option Located → Type 0
Sits none = Unit
Sits (some at_root) = Unit
Sits (some at_readme) = Unit
Sits (some (in_archive folder inner)) = IsFolder folder

is_root→eq : (p : SmbPath) → is_root p ≡ true → p ≡ root
unfolding is_root
is_root→eq p h = go p.components h
  where
    go : (cs : List (List ℕ)) → is_empty cs ≡ true → record { components = cs } ≡ root
    go [] h = refl
    go (c ∷ cs) h = cc

module _ (r : RootBacking) where
  in_folder-Sits :
      (archive : Option Folder) (first : List ℕ) (rest : SmbPath)
      → ArchiveCoherent archive
      → Sits (in_folder archive first rest)
  in_folder-Sits none first rest h = tt
  in_folder-Sits (some folder) first rest h =
      if_cases Sits (eq_ignore_ascii_case first folder.info.name) (λ e. h) (λ e. tt)

  locate-Sits : (p : SmbPath) → ArchiveCoherent r.archive → Sits (locate r p)
  unfolding locate
  locate-Sits p h = elim (Option-cases (split_first p)) [
    | inl a ↦ rw (a, locate) tt
    | inr ((first, rest), a) ↦
        rw (a, locate)
          (if_cases Sits (eq_ignore_ascii_case first readme_name)
            (λ e. if_cases Sits (is_root rest) (λ e. tt) (λ e. tt))
            (λ e. in_folder-Sits r.archive first rest h))
  ]

  located-Agree : (l : Option Located) → Sits l → Agree (stat_at r l) (list_at r l) (open_at r l)
  unfolding readme_info
  located-Agree none h = inr (inr (_, _, _, refl, refl, refl))
  located-Agree (some at_root) h = inl (_, _, refl, refl, refl, refl)
  located-Agree (some at_readme) h = inr (inl (_, refl, refl, refl))
  located-Agree (some (in_archive folder inner)) h = elim (Bool-cases (is_root inner)) [
    | inl e ↦ rw e (
        inl (
          folder.info,
          h.1.top.0,
          refl,
          h.0,
          ap folder.backing.list (is_root→eq inner e) ∙ h.1.top.1,
          refl,
        ))
    | inr e ↦ rw e (h.1.at inner)
  ]

  -- The root of the share keeps the contract that the file commands rely on, if the archive under it does: what has a
  -- node of a directory is listed and not opened, a file is not listed, and a path without a node
  -- has no listing and no reader.
  pub root_backing-IsCoherent : ArchiveCoherent r.archive → IsCoherent (root_backing r)
  unfolding root_backing
  root_backing-IsCoherent h = record {
    at = λ p. located-Agree (locate r p) (locate-Sits p h);
    top = (_, refl);
  }
