-- ===== src/Contents.antt =====
-- What the program shows as the share: src/root.rs, and the index of an archive in src/archive.rs.
pub mod Root
pub mod Index
pub mod Archive
pub mod Coherent
pub mod Listing
pub mod Keys
pub mod Parents
pub mod Insertion
pub mod Sorted
mod Tests
