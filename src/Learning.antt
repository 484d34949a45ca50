-- ===== src/Learning.antt =====
-- skills/ayran/src/ayran/learning.
pub mod Release
pub mod Promotion
pub mod Review
