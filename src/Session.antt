-- ===== src/Session.antt =====
-- src/syncstate.go: the local state file, and the operations of a session on both state files.
pub mod Local
pub mod Generation
pub mod Close
pub mod Release
pub mod Advance
pub mod Recovery
pub mod Open
