-- ===== src/Identity.antt =====
-- embers/identity/registry.py and embers/api/session_gate.py: who an agent is, and which agent a
-- request comes from.
pub mod Registry
pub mod Gate
pub mod Registered
pub mod Closed
mod Tests
