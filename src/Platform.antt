-- ===== src/Platform.antt =====
-- What the program takes from code that is not in the repository: the hash and cipher crates, the
-- Unicode tables of Rust's strings, and how a vector's capacity grows. A function that uses one of
-- them has the record as an argument.
pub mod Samples
use smbanything.Base.{ℕ, List}

pub record Platform : Type 0 where
  -- `Hmac<Sha256>`: the key and the message
  pub hmac_sha256 : List ℕ → List ℕ → List ℕ
  -- `Hmac<Md5>`: the key and the message
  pub hmac_md5 : List ℕ → List ℕ → List ℕ
  pub md4 : List ℕ → List ℕ
  -- `Rc4::apply_keystream`: the key and the buffer
  pub rc4 : List ℕ → List ℕ → List ℕ
  -- `str::to_lowercase` and `str::to_uppercase`
  pub to_lowercase : List ℕ → List ℕ
  pub to_uppercase : List ℕ → List ℕ
  -- the capacity that a full `Vec` has after a push
  pub grow : ℕ → ℕ
