-- ===== src/Examples.antt =====
-- Runs of the modelled code over a small world, and the theorems at concrete inputs.
mod Demo
mod Protocol
mod Events
mod Paths
mod Waits
mod Syncs
mod Stalls
mod Inotify
mod Startup
mod Runs
