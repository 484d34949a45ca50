-- ===== src/Mapping.antt =====
-- skills/ayran/src/ayran/mapping.
pub mod Coverage
pub mod CellMeta
