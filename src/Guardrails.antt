-- ===== src/Guardrails.antt =====
-- Spending guardrails (wallet-sdk/src/guardrails and the policy types of wallet-sdk/src/types.ts).
pub mod Policy
pub mod Enforcer
pub mod Templates
