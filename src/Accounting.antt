-- ===== src/Accounting.antt =====
-- src/accounting: what the trades of a run do to the account.
pub mod Portfolio
pub mod Tests
