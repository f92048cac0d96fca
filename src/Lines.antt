-- ===== src/Lines.antt =====
-- src/lines: what stands between a strategy and the venue.
pub mod Gateway
pub mod Broker
pub mod Tests
