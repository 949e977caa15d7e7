-- ===== src/Path.antt =====
-- Slash-separated paths (Go's path and, on Linux, filepath), and remote names: src/syncpath.go.
pub mod Clean
pub mod Remote
pub mod Total
pub mod Quote
pub mod Resolve
