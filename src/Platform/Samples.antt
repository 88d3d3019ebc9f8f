-- ===== src/Platform/Samples.antt =====
-- Simple functions in the place of the hashes, the cipher and the tables, for tests.
use smbanything.Base.{◌+◌, ◌*◌, replicate}
use smbanything.Platform.{Platform}

abbrev pub toy : Platform
toy = record {
  hmac_sha256 = λ key message. replicate 32 9;
  hmac_md5 = λ key message. replicate 16 7;
  md4 = λ message. replicate 16 5;
  rc4 = λ key buf. buf;
  to_lowercase = λ s. s;
  to_uppercase = λ s. s;
  grow = λ n. 2 * n + 4;
}
