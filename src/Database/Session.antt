-- ===== src/Database/Session.antt =====
-- Sessions: embers/core/session.py and their operations in embers/db.py.
pub mod Payload
pub mod Operations
pub mod RoundTrip
pub mod Outline
pub mod Revising
pub mod Lifecycle
mod Tests
