-- ===== src/Remote.antt =====
-- src/syncstate.go: the remote state file, read and replaced through rclone.
pub mod Run
pub mod Read
pub mod Replace
pub mod Frame
pub mod ReadBack
pub mod Ownership
pub mod Verified
pub mod Conditional
