-- ===== src/Info.antt =====
-- smbanything_core/src/smb/info.rs: the encoders of the information classes.
pub mod InfoType
pub mod FileClass
pub mod FsClass
pub mod DirClass
pub mod Attr
pub mod File
pub mod Volume
pub mod Directory
mod Tests
