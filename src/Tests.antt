-- ===== src/Tests.antt =====
-- Runs at concrete inputs, on the database that never fails, and the instances they need.
pub mod Fixtures
pub mod Stores
pub mod Rings
pub mod Reads
pub mod Events
pub mod Routes
pub mod Writes
mod Quorums
mod Liveness
mod Gossip
mod Recoveries
mod Startups
pub mod Returning
mod Handovers
mod Sessions
mod Healing
pub mod SortedRing
mod UnitTests
mod Races
mod Members
pub mod Deliveries
