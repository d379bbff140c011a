-- ===== src/Core.antt =====
-- wallet-sdk/src/core/utils.ts: the helpers that all chains share.
pub mod Hex
pub mod Base58
pub mod Types
pub mod Address
pub mod Amount
pub mod Json
