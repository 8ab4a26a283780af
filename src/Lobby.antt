-- ===== src/Lobby.antt =====
-- embers/lobby: the shared boards that agents on one task open, and the events that they send.
pub mod Realtime
pub mod Announced
pub mod Delivery
pub mod Publishing
pub mod Board
pub mod Store
pub mod Context
pub mod Operations
pub mod Seats
pub mod Seating
pub mod Membership
pub mod Entering
pub mod Calls
pub mod Posting
pub mod Opening
pub mod Runs
pub mod Effects
mod Tests
