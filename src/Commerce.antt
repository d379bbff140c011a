-- ===== src/Commerce.antt =====
-- Agent-to-agent commerce (wallet-sdk/src/commerce): the escrow types and the escrow client.
pub mod Types
pub mod EscrowClient
