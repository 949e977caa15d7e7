-- ===== src/Main.antt =====
-- src/main.go and src/terminal_linux.go: a run from its command line to its exit status.
pub mod ExitCode
pub mod Terminal
pub mod Rclone
pub mod SetUp
pub mod Run
pub mod Started
pub mod Closed
pub mod Delivered
pub mod Success
pub mod Open
