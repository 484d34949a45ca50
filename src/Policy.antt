-- ===== src/Policy.antt =====
-- skills/ayran/src/ayran/policy.
pub mod Path
pub mod Scope
pub mod Permissions
