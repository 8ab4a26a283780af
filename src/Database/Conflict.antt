-- ===== src/Database/Conflict.antt =====
-- Mapped conflicts: embers/core/conflict.py and the change of their status in embers/db.py.
pub mod Payload
pub mod Operations
pub mod Transitions
pub mod RoundTrip
pub mod Mapping
pub mod Lookup
pub mod Mapped
pub mod Idempotent
mod Tests
