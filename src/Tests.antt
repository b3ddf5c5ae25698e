-- ===== src/Tests.antt =====
-- The parameters of the development instantiated by executable ones, and the theorems applied to them.
pub mod Memory
pub mod Store
pub mod Turns
pub mod Calls
pub mod Server
pub mod RedisStore
pub mod Texts
pub mod Pairs
pub mod Arrivals
pub mod Expiries
pub mod Refusals
pub mod Deliveries
pub mod Start
