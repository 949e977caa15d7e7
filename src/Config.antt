-- ===== src/Config.antt =====
-- src/options.go and src/main.go: the command line.
pub mod Duration
pub mod LockWaitFlag
pub mod WaitUnits
pub mod Flags
pub mod FlagSet
pub mod Parse
pub mod Kept
pub mod Invariant
pub mod Checks
pub mod Valid
pub mod Print
