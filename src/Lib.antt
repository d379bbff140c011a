-- ===== src/Lib.antt =====
-- A verification library for the wallet SDK (wallet-sdk/src): the guardrails that bound what an agent
-- may spend, the wallets that apply them, the activity log and the escrow client that build on a wallet.
--
-- The parts and their files:
-- - Guardrails (wallet-sdk/src/guardrails, types.ts): Policy has the policy's types, Enforcer the
--   methods of PolicyEnforcer, Templates the policies by agent type. Enforcer.Permission, Refusal, Ledger,
--   Budget, Recorded and Remaining are the laws of the enforcer.
-- - Wallet (wallet-sdk/src/MonmouthWallet.ts): a wallet owns an enforcer, a connection, listeners and the
--   browser's storage. Wallet.Guard and Wallet.Restart are its laws.
-- - AgentWallet (wallet-sdk/src/wallet/AgentWallet.ts): the multi-chain wallet, with its own copy of the
--   guardrails over a chain adapter. AgentWallet.Store has how it is made, stored and reconfigured;
--   Permission, Send and Birth are its laws.
-- - Memory (wallet-sdk/src/memory/ActivityLog.ts, types.ts): the activity log in localStorage mode;
--   Stats has its statistics; Ids, Calls, Import, Query, Retention and Stats.Totals are its laws.
-- - Commerce (wallet-sdk/src/commerce/EscrowClient.ts, types.ts): the escrow client, which validates and
--   records payments by a MonmouthWallet and logs into an ActivityLog. EscrowClient.Disputes and Queries
--   continue its methods; Calls has histories; Lifecycle, History, Cleared, Authority and Expiry are
--   its laws.
-- - Payments (wallet-sdk/src/payments): X402 (X402Client.ts, types.ts) is the client that pays for a request
--   when a server asks for it, by a MonmouthWallet and with an ActivityLog; Charges and Limits are its
--   laws. Router (PaymentRouter.ts) routes a payment to that client, to the escrow client or to a transfer,
--   which share the wallet; Routed has its laws.
-- - Core (wallet-sdk/src/core/utils.ts, types.ts): Hex, Base58, Address, Amount and Json have the helpers
--   of all chains. Base58.Numbers and the RoundTrip modules are their laws.
-- - AgentWallet.Did has getDID with its own encoder, and that identifiers tell wallets apart.
-- - AgentWallet.Identity (wallet-sdk/src/wallet/AgentIdentityManager.ts): the identity documents of either
--   chain; Documents and Verified are its laws.
-- - Identity (wallet-sdk/src/identity/AgentIdentity.ts, types.ts): Base58 has the encoder that carries digits,
--   Manager the identity of a MonmouthWallet's agent, Manager.Accepted its signing and verification.
--   Base58.Carried, Base58.Agreed, Manager.Dids and Manager.Accepted.Own are the laws.
-- - Tokens (wallet-sdk/src/tokens/TokenRegistry.ts, types.ts, constants.ts): Registry has the state of the
--   registry and how it starts, its children Custom, Lookup, Search, Lists, Safety and Cache the methods.
--   Custom.Laws, Custom.Stored, Search.Rules, Decided, Complete and Results, Lists.Growth, Lists.Bound,
--   Safety.Levels and Cache.Expiry are its laws.
-- - Common: Booleans, lists, `bigint` as integers over the native numbers, strings as lists of code
--   units, `Map` as an association list, the `Set` of listeners, the decimal texts of `bigint` and, in Radix, the
--   digit loops of any base.
-- - Tests: the definitions on concrete inputs.
--
-- A class is a record and a method a function on it, named as in the source, that returns the new record
-- beside its result. The clock (`Date.now()`, in milliseconds) and what is drawn at random are arguments.
-- What listeners were called with is kept in `delivered`; a listener does not call back. `localStorage` keeps
-- the record that the JSON text encodes, with `bigint` written as decimal text as the source does; a
-- write does not fail. A case-insensitive comparison folds ASCII letters. Recursion is on a list, or on
-- a number as fuel: a loop that divides `n` has the fuel `n`, or one more, which is enough because each turn
-- makes `n` smaller (Common.Radix and Common.Decimal prove that the digits are all there).
--
-- Not modelled: the IndexedDB mode of the log, the headers and the stub signatures
-- of the X402 client, the Solana client and the Solana token registry, typed-data signing,
-- the chain adapters (calls of viem and of Solana RPC; an adapter's answer is an argument), the contracts
-- and the Rust node.
pub mod Common
pub mod Core
pub mod Guardrails
pub mod Wallet
pub mod Memory
pub mod Commerce
pub mod AgentWallet
pub mod Identity
pub mod Payments
pub mod Tokens
pub mod Tests
