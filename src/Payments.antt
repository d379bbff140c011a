-- ===== src/Payments.antt =====
-- The payment clients of wallet-sdk/src/payments.
pub mod Types
pub mod X402
pub mod Router
