-- ===== src/Bandwidth.antt =====
-- bandwidth_manager.h: a sender behind a rate control for each stream.
pub mod Float
pub mod State
pub mod Streams
pub mod Health
pub mod Api
pub mod Queries
pub mod Bounds
pub mod Kept
pub mod Runs
pub mod RttTrip
pub mod Drops
pub mod TakenUp
pub mod Reduction
