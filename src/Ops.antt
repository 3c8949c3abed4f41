-- ===== src/Ops.antt =====
-- The school's daily operations: hostel, library, gate.
pub mod Hostel
pub mod Library
pub mod Gate
