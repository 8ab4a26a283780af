-- ===== src/Database/Proposal.antt =====
-- Proposals as records: embers/core/proposal.py and the operations of embers/db.py on them.
pub mod Payload
pub mod Operations
pub mod Status
pub mod Proposed
pub mod Rejected
mod Tests
