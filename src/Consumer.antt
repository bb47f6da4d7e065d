-- ===== src/Consumer.antt =====
-- The consumer chain's module (x/vaas/consumer).
pub mod State
pub mod Queue
pub mod Downtime
pub mod Relay
