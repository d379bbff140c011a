-- ===== src/Identity.antt =====
-- wallet-sdk/src/identity: the identity of an agent by its Ethereum wallet.
pub mod Base58
pub mod Manager
