-- ===== src/Core.antt =====
-- embers/core: the enumerations, the record and its parts, and the errors that the engines raise.
pub mod Types
pub mod Record
pub mod Result
pub mod Triples
pub mod Proposal
pub mod Samples
