-- ===== src/Proto.antt =====
-- smbanything_core/src/smb/proto.rs: the SMB2 header codec and the protocol's constants.
pub mod Status
pub mod Cmd
pub mod Flags
pub mod Access
pub mod Header
mod Tests
