-- ===== src/Orderbook.antt =====
-- src/orderbook: the tick-indexed ladder of one side, and the L2 book of two of them.
pub mod Ladder
pub mod Book
pub mod View
pub mod Tests
