-- ===== src/Provider.antt =====
-- The provider chain's module (x/vaas/provider).
pub mod State
pub mod Bank
pub mod FeePool
pub mod Fees
pub mod Downtime
pub mod KeyAssignment
pub mod TimeQueue
pub mod Lifecycle
pub mod Challenge
pub mod Slash
pub mod Rotation
pub mod KeyHistory
pub mod Params
pub mod Assembly
pub mod Relay
pub mod Example
