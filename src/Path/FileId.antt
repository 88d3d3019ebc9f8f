-- ===== src/Path/FileId.antt =====
-- `SmbPath::file_id` of path.rs: FNV-1a over the lowercased components.
-- `str::to_lowercase` follows the tables of Unicode: it is a parameter here.
use smbanything.Base.{
  ℕ, List, [], ◌∷◌, ◌≡◌, ◌≢◌, refl, ap, ◌∙◌, ◌-◌, ◌*◌, ◌%◌, ◌^◌, ◌<◌, ◌||◌, arith, bit_xor, ◌==◌,
  if◌then◌else◌, map,
}
use mathlib.Core.List.{foldl}
use smbanything.Base.Text.{as_bytes}
use smbanything.Path.{SmbPath, separator}

abbrev offset : ℕ
offset = 0xcbf29ce484222325

abbrev prime : ℕ
prime = 0x100000001B3

-- `hash ^= b; hash = hash.wrapping_mul(PRIME)`
pub hash_byte : ℕ → ℕ → ℕ
hash_byte hash b = (bit_xor hash b * prime) % 2 ^ 64

module _ (to_lowercase : List ℕ → List ℕ) where
  pub hash_component : ℕ → List ℕ → ℕ
  hash_component hash c = hash_byte (foldl hash_byte hash (as_bytes (to_lowercase c))) separator

  -- Zero and `u64::MAX` are reserved.
  unfoldable pub file_id : SmbPath → ℕ
  unfolding hash_component hash_byte as_bytes
  file_id p =
      let hash = foldl hash_component offset p.components in
      if hash == 0 || hash == 2 ^ 64 - 1 then 1 else hash

  hash_components-lt :
      (hash : ℕ) (cs : List (List ℕ)) → hash < 2 ^ 64 → foldl hash_component hash cs < 2 ^ 64
  hash_components-lt hash [] h = h
  hash_components-lt hash (c ∷ cs) h =
      hash_components-lt (hash_component hash c) cs (unfold hash_component hash_byte in omega arith)

  -- Every path's id fits 64 bits and is neither of the two reserved values.
  pub file_id_usable :
      (p : SmbPath) → (file_id p ≢ 0) × (file_id p ≢ 2 ^ 64 - 1) × (file_id p < 2 ^ 64)
  unfolding file_id
  file_id_usable p =
      let small = hash_components-lt offset p.components (omega arith) in ground (arith, small)

  hash_components_fold :
      (hash : ℕ) (cs ds : List (List ℕ))
      → map to_lowercase cs ≡ map to_lowercase ds
      → foldl hash_component hash cs ≡ foldl hash_component hash ds
  hash_components_fold hash [] [] h = refl
  hash_components_fold hash [] (d ∷ ds) h = absurd (ground arith)
  hash_components_fold hash (c ∷ cs) [] h = absurd (ground arith)
  hash_components_fold hash (c ∷ cs) (d ∷ ds) h =
      let e : to_lowercase c ≡ to_lowercase d = cc in
      let step : hash_component hash c ≡ hash_component hash d =
        unfold hash_component in
        ap (λ s. hash_byte (foldl hash_byte hash (as_bytes s)) separator) e in
      ap (λ k. foldl hash_component k cs) step
      ∙ hash_components_fold (hash_component hash d) cs ds cc

  -- Two spellings of a path that lowercase to the same components have one id.
  pub file_id_ignores_case :
      (p q : SmbPath)
      → map to_lowercase p.components ≡ map to_lowercase q.components
      → file_id p ≡ file_id q
  unfolding file_id
  file_id_ignores_case p q h = rw (hash_components_fold offset p.components q.components h) refl
