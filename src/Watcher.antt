-- ===== src/Watcher.antt =====
-- src/watcher_linux.go: the inotify watcher.
pub mod Maps
pub mod State
pub mod Tree
pub mod Handle
pub mod Buffer
pub mod Events
pub mod Total
pub mod Alias
pub mod Reports
pub mod Closing
