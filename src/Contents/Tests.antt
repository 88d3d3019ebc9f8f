-- ===== src/Contents/Tests.antt =====
-- Tests of src/root.rs and src/archive.rs, and their theorems at concrete contents.
use smbanything.Base.{
  ℕ, ◌≤◌, length, ◌≡◌, ◌⊎◌, refl, false, List, [], ◌∷◌, none, some, ok, err, if◌then◌else◌,
}
use smbanything.Backing.{empty_backing, is_dir}
use smbanything.Base.Text.{codes}
use smbanything.Contents.Archive.{new_index, insert, entry, list, infos, normalized_key}
use smbanything.Contents.Coherent.{IsCoherent, empty_backing-IsCoherent, root_backing-IsCoherent}
use smbanything.Contents.Index.{IndexedEntry, ArchiveIndex, parse_archive_path}
use smbanything.Contents.Listing.{children}
use smbanything.Contents.Root.{RootBacking, build, root_backing}
use smbanything.Contents.Insertion.{IsBlocked, Inserts, insert_cases}
use smbanything.Contents.Sorted.{list_cases}
use smbanything.Path.{SmbPath}
use smbanything.Proto.Header.{SystemTime, since_epoch}
use smbanything.Proto.Status

abbrev now : SystemTime
now = since_epoch 1700000000 0

abbrev loaded : RootBacking
loaded = build now (codes "text") (some (codes "a1b2c3d4", empty_backing (codes "label") now))

root_backing-IsCoherent_example : IsCoherent (root_backing loaded)
root_backing-IsCoherent_example =
    root_backing-IsCoherent loaded (refl, empty_backing-IsCoherent (codes "label") now)

abbrev one : ℕ
one = 1

abbrev as_is : List ℕ → List ℕ
as_is s = s

abbrev top : SmbPath
top = record { components = [] }

list_cases_example :
    ((entry {T = ℕ} as_is top (new_index now) ≡ none)
      × (list {T = ℕ} as_is top (new_index now) ≡ err Status.object_path_not_found))
    ⊎ ((e : IndexedEntry ℕ) × (entry as_is top (new_index now) ≡ some e)
        × (list {T = ℕ} as_is top (new_index now) ≡ (
            if is_dir e.info.kind
            then ok (
                infos
                  (children (normalized_key as_is top.components) (new_index {T = ℕ} now).entries))
            else err Status.not_a_directory)))
unfolding new_index
list_cases_example = list_cases as_is top (new_index now) (tt, tt)

-- A path of two names, and one that would leave the share.
parse_two : parse_archive_path (codes "docs/a.txt") false ≡ some (codes "docs" ∷ codes "a.txt" ∷ [])
unfolding parse_archive_path
parse_two = refl

parse_dot_dot : parse_archive_path (codes "../a") false ≡ none
unfolding parse_archive_path
parse_dot_dot = refl

insert_cases_example :
    ((parse_archive_path (codes "docs/a.txt") false ≡ none)
      × (insert as_is (codes "docs/a.txt") false 5 now (some one) (new_index now) ≡ none))
    ⊎ (((parse_archive_path (codes "docs/a.txt") false ≡ some [])
          × (insert as_is (codes "docs/a.txt") false 5 now (some one) (new_index now)
              ≡ some (new_index now)))
        ⊎ ((components : List (List ℕ)) × (parse_archive_path (codes "docs/a.txt") false
              ≡ some components)
            × (1 ≤ length components)
            × ((IsBlocked as_is components now 5 (some one) false (new_index now)
                  × (insert as_is (codes "docs/a.txt") false 5 now (some one) (new_index now)
                      ≡ none))
                ⊎ ((index' : ArchiveIndex ℕ) × (insert as_is
                        (codes "docs/a.txt")
                        false
                        5
                        now
                        (some one)
                        (new_index now)
                      ≡ some index')
                    × Inserts as_is components now 5 (some one) false (new_index now) index'))))
insert_cases_example =
    insert_cases as_is (codes "docs/a.txt") false 5 now (some one) (new_index now)
