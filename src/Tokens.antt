-- ===== src/Tokens.antt =====
-- wallet-sdk/src/tokens: what tokens there are, from lists, chains and users.
pub mod Types
pub mod Constants
pub mod Registry
