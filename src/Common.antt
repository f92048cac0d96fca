-- ===== src/Common.antt =====
-- src/common: the shared enumerations, the floating-point interface, market events, and the fee
-- arithmetic of an instrument (src/common/types.h, market_event.h, instrument_spec.h).
pub mod Types
pub mod Batch
pub mod Updates
pub mod Float
pub mod Fees
