-- ===== src/Exchange.antt =====
-- src/exchange: orders and reports, the queue model, and the matching engine.
pub mod Order
pub mod Queue
pub mod Book
pub mod Sweep
pub mod Engine
pub mod Venue
pub mod Samples
pub mod Tests
