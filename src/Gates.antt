-- ===== src/Gates.antt =====
-- skills/ayran/src/ayran/gates.
pub mod Credentials
pub mod Mechanical
pub mod Patch
pub mod GateB
pub mod GateA
