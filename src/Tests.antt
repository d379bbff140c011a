-- ===== src/Tests.antt =====
-- The library's definitions on concrete inputs.
mod Guardrails
mod Wallet
mod Memory
mod Commerce
mod AgentWallet
mod Core
mod Payments
mod Tokens
mod Identity
