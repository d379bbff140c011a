-- ===== src/Guardrails/Policy.antt =====
-- The policy types of wallet-sdk/src/types.ts: amounts are `bigint`s, timestamps are whole
-- milliseconds, addresses and selectors are texts. A message is the data that it interpolates.
use reth_monmouth.Common.{ℕ, Bool, true, false, Option, none, some, List}
use reth_monmouth.Common.Int.{ℤ}
use reth_monmouth.Common.Text.{Text}

abbrev pub Address : Type 0
Address = Text

abbrev pub Hex : Type 0
Hex = Text

pub data AgentType : Type 0 where
  research trading coordinator commerce : AgentType

pub record SpendingPolicy : Type 0 where
  pub max_per_transaction : ℤ
  pub max_per_day : ℤ
  pub allowed_addresses : List Address
  pub blocked_addresses : List Address
  pub allowed_selectors : List Hex
  pub session_expiry : ℕ
  pub can_deploy_contracts : Bool

-- `Partial<SpendingPolicy>`
pub record PolicyOverrides : Type 0 where
  pub max_per_transaction : Option ℤ
  pub max_per_day : Option ℤ
  pub allowed_addresses : Option (List Address)
  pub blocked_addresses : Option (List Address)
  pub allowed_selectors : Option (List Hex)
  pub session_expiry : Option ℕ
  pub can_deploy_contracts : Option Bool

pub data Rule : Type 0 where
  max_per_transaction max_per_day blocked_address not_allowed_address : Rule
  not_allowed_selector session_expired no_contract_deploy : Rule

-- The `reason` texts of `PolicyEnforcer.validate`.
pub data Reason : Type 0 where
  session_has_expired : Reason
  contract_deployment_not_allowed : Reason
  address_is_blocked : Option Address → Reason
  address_is_not_in_allowlist : Option Address → Reason
  selector_is_not_allowed : Hex → Reason
  exceeds_per_transaction_limit : (value limit : ℤ) → Reason
  would_exceed_daily_limit : (spent value limit : ℤ) → Reason

pub record PolicyValidationResult : Type 0 where
  pub allowed : Bool
  pub reason : Option Reason
  pub violated_rule : Option Rule

-- A missing `isContractDeploy` is `false`.
pub record TransactionIntent : Type 0 where
  pub to : Option Address
  pub value : ℤ
  pub calldata : Option Hex
  pub is_contract_deploy : Bool

abbrev pub accept : PolicyValidationResult
accept = record { allowed = true; reason = none; violated_rule = none }

abbrev pub reject : Reason → Rule → PolicyValidationResult
reject reason rule = record { allowed = false; reason = some reason; violated_rule = some rule }

-- `x && test(x)` for a value that may be `undefined`.
abbrev pub given {ℓ} : {A : Type ℓ} → Option A → (A → Bool) → Bool
given none test = false
given (some x) test = test x
