-- ===== src/Index.antt =====
-- embers/index: the indexes that embers/db.py keeps beside the records.
pub mod Master
pub mod Timeline
pub mod Graph
