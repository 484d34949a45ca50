-- ===== src/Graph.antt =====
-- skills/ayran/src/ayran/graph.
pub mod Record
pub mod Journal
pub mod Batch
pub mod Projection
pub mod Store
