-- ===== src/Context.antt =====
-- skills/ayran/src/ayran/context.
pub mod Budget
