-- ===== src/Info/Tests.antt =====
-- Tests of info.rs, and its theorem at a concrete listing.
use smbanything.Base.{
  ℕ, suc, ◌+◌, ◌<◌, ◌≤◌, [], ◌∷◌, ◌≡◌, ◌⊎◌, refl, some, ok, err, length, false, if◌then◌else◌,
}
use smbanything.Base.Text.{codes}
use smbanything.Backing.{NodeInfo, synthetic_dir}
use smbanything.Info.DirClass
use smbanything.Info.Directory.{encode_dir_entries, dir_entry_fixed_len}
use smbanything.Info.Directory.Page.{encode_dir_entries_cases}
use smbanything.Info.File.{file_standard}
use smbanything.Info.Volume.{fs_sector_size}
use smbanything.Proto.Header.{SystemTime, since_epoch}
use smbanything.Proto.Status
use smbanything.Wire.Utf16.{utf16le}
use smbanything.Wire.Writer.{Writer}

abbrev now : SystemTime
now = since_epoch 1700000000 0

abbrev movies : NodeInfo
movies = synthetic_dir (codes "movies") now

abbrev music : NodeInfo
music = synthetic_dir (codes "music") now

encode_dir_entries_cases_example :
    ((200 < 64 + length (utf16le movies.name))
      × (encode_dir_entries DirClass.directory ((movies, 7) ∷ (music, 8) ∷ []) 0 200 false
          ≡ some (err Status.info_length_mismatch)))
    ⊎ ((w : Writer) × (n : ℕ) × (encode_dir_entries DirClass.directory
            ((movies, 7) ∷ (music, 8) ∷ [])
            0
            200
            false
          ≡ some (ok (w, n)))
        × (length w.buf ≤ 200)
        × (1 ≤ n)
        × (n ≤ (if false then 1 else suc (length {A = NodeInfo × ℕ} ((music, 8) ∷ [])))))
encode_dir_entries_cases_example =
    encode_dir_entries_cases DirClass.directory 64 0 200 false movies 7 ((music, 8) ∷ [])
      (unfold dir_entry_fixed_len in refl)

length-file_standard : length (file_standard movies) ≡ 24
unfolding file_standard
length-file_standard = refl

length-fs_sector_size : length fs_sector_size ≡ 28
unfolding fs_sector_size
length-fs_sector_size = refl
