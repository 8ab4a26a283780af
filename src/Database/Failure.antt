-- ===== src/Database/Failure.antt =====
-- Failures as records: embers/core/failure.py and the operations of embers/db.py on them.
pub mod Payload
pub mod Operations
pub mod Repeated
mod Tests
