-- ===== src/Server.antt =====
-- The server of smbanything_core/src/smb/mod.rs: a connection with what it shares, one request, one
-- message, and one round of the connection's loop.
pub mod State
pub mod Commands
pub mod Execute
pub mod Message
pub mod Serve
pub mod Moves
pub mod Gate
pub mod Signed
pub mod Limit
pub mod Refusal
pub mod Chains
pub mod Invariant
pub mod Reach
pub mod Answers
mod Tests
