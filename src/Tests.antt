-- ===== src/Tests.antt =====
-- The theorems at concrete inputs.
pub mod Samples
pub mod Limits
pub mod Stores
pub mod Decisions
pub mod Leases
pub mod Policies
pub mod Batches
pub mod Breakers
pub mod Records
pub mod Control
pub mod Adapters
pub mod Settings
