-- ===== src/Session.antt =====
-- smbanything_core/src/smb/session.rs: a connection's session, its negotiation and its trees.
pub mod State
pub mod Negotiate
pub mod Requests
pub mod Trees
pub mod Spnego
pub mod Setup
mod Tests
mod SetupTests
