-- ===== src/Evidence.antt =====
-- skills/ayran/src/ayran/evidence.
pub mod Types
pub mod Payload
pub mod Actors
pub mod Edges
pub mod Machine
pub mod Trail
pub mod Severity
pub mod Dedup
