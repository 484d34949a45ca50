-- ===== src/Router.antt =====
-- skills/ayran/src/ayran/router.
pub mod Budget
pub mod Lens
pub mod Strikes
