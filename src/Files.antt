-- ===== src/Files.antt =====
-- smbanything_core/src/smb/files.rs: the open files of a connection and the file commands.
pub mod State
pub mod Handles
pub mod Disposition
pub mod Options
pub mod QueryDirFlags
pub mod FileId
pub mod Request
pub mod Glob
pub mod Create
pub mod Close
pub mod Read
pub mod QueryInfo
pub mod QueryDirectory
pub mod Replacement
mod Tests
mod CommandTests
mod QueryTests
