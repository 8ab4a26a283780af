-- ===== src/Database.antt =====
-- embers/db.py: what EmberDB does with records of a type of its own, over the engines.
pub mod Versions
pub mod Rewritten
pub mod Fields
pub mod Evidence
pub mod Wire
pub mod Listing
pub mod Session
pub mod Conflict
pub mod Failure
pub mod Proposal
