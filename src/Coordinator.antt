-- ===== src/Coordinator.antt =====
-- labgrid/remote/coordinator.py: the coordinator, which hands out places and resources.
pub mod State
pub mod Publish
pub mod Sessions
pub mod Clients
pub mod Events
pub mod Schedule
pub mod Reservations
pub mod Acquire
pub mod Frame
pub mod Streams
pub mod Waits
pub mod Exclusive
pub mod Holding
pub mod Acquiring
pub mod Pending
pub mod Copies
pub mod Conflict
pub mod Passes
pub mod Handlers
pub mod Standing
pub mod Releasing
pub mod Synchronize
pub mod Stable
pub mod Lookups
pub mod Orderly
pub mod Snapshot
pub mod Runs
pub mod Catalogue
pub mod Example
mod Tests
pub mod Places
