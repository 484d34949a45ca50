-- ===== src/Tests.antt =====
-- Runs of the models at concrete inputs.
pub mod Learning
pub mod Mapping
pub mod Router
pub mod Gates
pub mod Policy
pub mod Evidence
pub mod Tokens
pub mod Credentials
pub mod Severity
pub mod Graph
pub mod Context
pub mod GateA
pub mod Review
pub mod Dedup
