-- ===== src/Watch.antt =====
-- src/main.go: the changes that wait for a sync, and the loop that runs the syncs.
pub mod Batch
pub mod Startup
pub mod State
pub mod Loop
pub mod Delivery
pub mod Shutdown
pub mod Stall
