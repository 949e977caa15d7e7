-- ===== src/Acquire.antt =====
-- src/syncstate.go: taking the remote lock at startup.
pub mod Validate
pub mod Wait
pub mod Loop
pub mod Owned
pub mod Waiting
pub mod Ends
pub mod Open
