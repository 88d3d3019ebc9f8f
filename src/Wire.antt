-- ===== src/Wire.antt =====
-- smbanything_core/src/smb/wire.rs: the byte-level primitives of the SMB2 wire format.
pub mod Nbss
pub mod Reader
pub mod Writer
pub mod Utf16
pub mod Der
pub mod Codec
mod Tests
