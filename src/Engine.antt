-- ===== src/Engine.antt =====
-- embers/engine: the write engine and the read engine over one store, with the master index that
-- embers/db.py keeps in step with them.
pub mod State
pub mod Writer
pub mod Reader
pub mod Cases
pub mod Operations
pub mod AppendOnly
pub mod Synced
pub mod Lineage
pub mod Chain
pub mod Heads
pub mod Sound
pub mod Written
pub mod Cas
pub mod Current
pub mod History
pub mod ReadBack
pub mod Deprecation
mod Tests
