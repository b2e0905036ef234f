-- ===== src/Common.antt =====
-- labgrid/remote/common.py: what coordinator, exporters and clients share.
pub mod Tags
pub mod Glob
pub mod Match
pub mod Entry
pub mod Place
pub mod Reservation
mod Tests
