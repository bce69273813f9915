-- ===== src/Contracts.antt =====
-- packages/contracts/src: the shared data contracts of Relay and Concord.
pub mod Facts
pub mod Records
pub mod Ids
pub mod DocIds
pub mod Mutations
