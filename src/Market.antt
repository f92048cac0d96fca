-- ===== src/Market.antt =====
-- src/market: what reads and checks market data.
pub mod Fields
pub mod Validator
pub mod Ordering
pub mod Tests
