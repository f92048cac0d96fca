-- ===== src/App.antt =====
-- src/app: the controls and the records that stand between a strategy and the engine.
pub mod Orders
pub mod Risk
pub mod Ledger
pub mod Tests
