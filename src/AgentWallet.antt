-- ===== src/AgentWallet.antt =====
-- wallet-sdk/src/wallet/AgentWallet.ts: the wallet of one agent on one chain. The chain adapter is
-- outside: its chain type is a field, and what its `sendTransaction` answers is an argument. A method
-- takes the clock's reading; `send_transaction` takes two, since it waits for the adapter in between.
-- Storage keeps the record that the JSON text encodes; listeners do not call back into the wallet.
pub mod Store
pub mod Permission
pub mod Send
pub mod Birth
pub mod Did
pub mod Identity
use mathlib.Core.Option
use reth_monmouth.Common.{
  ℕ, ◌+◌, ◌-◌, ◌*◌, ◌/◌, Bool, true, false, not, ◌&&◌, Option, none, some, List, [], ◌∷◌, ◌++◌, map,
  ltb, leb, ◌==◌, if◌then◌else◌, or_else, is_some, any, is_empty, length, take,
}
use reth_monmouth.Common.Int.{ℤ, pos, ◌+ℤ◌, ◌-ℤ◌, ltb_ℤ}
use reth_monmouth.Common.Text.{Text, codes, same_folded, starts_with}
use reth_monmouth.Common.Assoc.{Assoc, lookup, insert, erase}
use reth_monmouth.Common.Decimal.{text_of_bigint, bigint_of_text}
pub use reth_monmouth.Core.Types.{ChainType, UniversalAddress}
use reth_monmouth.Guardrails.Policy.{
  AgentType, research, trading, coordinator, commerce, Rule, given,
}
use reth_monmouth.Guardrails.Enforcer.{current_day}

pub record SpendingPolicy : Type 0 where
  pub max_per_transaction : ℤ
  pub max_per_day : ℤ
  pub allowed_addresses : List UniversalAddress
  pub blocked_addresses : List UniversalAddress
  pub allowed_selectors : List (List ℕ)
  pub session_expiry : ℕ
  pub can_deploy_contracts : Bool

-- `Partial<SpendingPolicy>`
pub record PolicyOverrides : Type 0 where
  pub max_per_transaction : Option ℤ
  pub max_per_day : Option ℤ
  pub allowed_addresses : Option (List UniversalAddress)
  pub blocked_addresses : Option (List UniversalAddress)
  pub allowed_selectors : Option (List (List ℕ))
  pub session_expiry : Option ℕ
  pub can_deploy_contracts : Option Bool

pub record AgentIdentity : Type 0 where
  pub agent_id : Text
  pub agent_type : AgentType
  pub name : Text
  pub created_at : ℕ

-- The `reason` texts, by what they interpolate.
pub data Reason : Type 0 where
  session_expired contract_deployment_not_allowed selector_not_in_allowlist : Reason
  exceeds_max_per_transaction : (value limit : ℤ) → Reason
  would_exceed_daily_limit : (limit : ℤ) → Reason
  address_is_blocked address_not_in_allowlist : Option UniversalAddress → Reason

pub record PolicyValidationResult : Type 0 where
  pub allowed : Bool
  pub reason : Option Reason
  pub violated_rule : Option Rule

-- A missing `isContractDeploy` is `false`.
pub record TransactionIntent : Type 0 where
  pub to : Option UniversalAddress
  pub value : ℤ
  pub calldata : Option (List ℕ)
  pub is_contract_deploy : Bool

pub data WalletEvent : Type 0 where
  transaction_blocked : TransactionIntent → Option Reason → WalletEvent
  transaction_sent : Text → ChainType → WalletEvent
  policy_updated : SpendingPolicy → WalletEvent
  session_expired daily_reset : WalletEvent

-- What `persistState` writes.
pub record StoredPolicy : Type 0 where
  pub max_per_transaction : Text
  pub max_per_day : Text
  pub allowed_addresses : List UniversalAddress
  pub blocked_addresses : List UniversalAddress
  pub allowed_selectors : List (List ℕ)
  pub session_expiry : ℕ
  pub can_deploy_contracts : Bool

pub record StoredWallet : Type 0 where
  pub daily_spent : Text
  pub last_spend_day : ℕ
  pub policy : StoredPolicy

abbrev pub Storage : Type 0
Storage = Option (Assoc StoredWallet)

pub record AgentWallet : Type 0 where
  pub chain_type : ChainType
  pub identity : AgentIdentity
  pub policy : SpendingPolicy
  pub daily_spent : ℤ
  pub last_spend_day : ℕ
  pub listeners : List ℕ
  pub monitoring : Bool
  pub storage : Storage
  pub delivered : List (ℕ × WalletEvent)

unfoldable pub emit : WalletEvent → AgentWallet → AgentWallet
emit event w = record w { delivered = w.delivered ++ map (λ l. (l, event)) w.listeners }

chain_name : ChainType → Text
chain_name ChainType.evm = codes "evm"
chain_name ChainType.svm = codes "svm"

unfoldable pub storage_key : Text → ChainType → Text
unfolding chain_name
storage_key agent_id chain = codes "agent_wallet_" ++ agent_id ++ codes "_" ++ chain_name chain

unfoldable pub stored_form : AgentWallet → StoredWallet
stored_form w = record {
  daily_spent = text_of_bigint w.daily_spent;
  last_spend_day = w.last_spend_day;
  policy = record {
    max_per_transaction = text_of_bigint w.policy.max_per_transaction;
    max_per_day = text_of_bigint w.policy.max_per_day;
    allowed_addresses = w.policy.allowed_addresses;
    blocked_addresses = w.policy.blocked_addresses;
    allowed_selectors = w.policy.allowed_selectors;
    session_expiry = w.policy.session_expiry;
    can_deploy_contracts = w.policy.can_deploy_contracts;
  };
}

unfoldable pub persist_state : AgentWallet → AgentWallet
unfolding stored_form storage_key
persist_state w = record w {
  storage =
      Option.map (insert (storage_key w.identity.agent_id w.chain_type) (stored_form w)) w.storage;
}

-- `checkDayReset`: any other day resets, an earlier one too.
unfoldable pub check_day_reset : ℕ → AgentWallet → AgentWallet
unfolding emit persist_state
check_day_reset now w =
    if current_day now == w.last_spend_day
    then w
    else emit WalletEvent.daily_reset
        (persist_state (record w { daily_spent = pos 0; last_spend_day = current_day now }))

-- `Date.now() > sessionExpiry`
unfoldable pub is_session_expired : ℕ → AgentWallet → Bool
is_session_expired now w = ltb w.policy.session_expiry now

abbrev pub accept : PolicyValidationResult
accept = record { allowed = true; reason = none; violated_rule = none }

abbrev pub reject : Reason → Rule → PolicyValidationResult
reject reason rule = record { allowed = false; reason = some reason; violated_rule = some rule }

unfoldable pub is_listed : List UniversalAddress → UniversalAddress → Bool
is_listed addresses to = any (λ a. same_folded a.display to.display) addresses

-- `to && allowed.length > 0 && !isAllowed`
abbrev pub is_not_allowed : SpendingPolicy → UniversalAddress → Bool
is_not_allowed p to = not (is_empty p.allowed_addresses) && not (is_listed p.allowed_addresses to)

-- `s.length >= 4 && s.every((b, i) => b === selector[i])`
abbrev pub selector_matches : List ℕ → List ℕ → Bool
selector_matches selector s = leb 4 (length s) && starts_with s selector

-- `data.length >= 4 && allowedSelectors.length > 0 && !isAllowed`
unfoldable pub is_selector_refused : SpendingPolicy → List ℕ → Bool
is_selector_refused p calldata =
    leb 4 (length calldata)
    && not (is_empty p.allowed_selectors)
    && not (any (selector_matches (take 4 calldata)) p.allowed_selectors)

-- The checks of `validateTransaction` after the daily reset.
unfoldable pub check_rest : TransactionIntent → AgentWallet → PolicyValidationResult
check_rest intent w =
    if ltb_ℤ w.policy.max_per_day (w.daily_spent +ℤ intent.value)
    then reject (Reason.would_exceed_daily_limit w.policy.max_per_day) Rule.max_per_day
    else if given intent.to (is_listed w.policy.blocked_addresses)
    then reject (Reason.address_is_blocked intent.to) Rule.blocked_address
    else if given intent.to (is_not_allowed w.policy)
    then reject (Reason.address_not_in_allowlist intent.to) Rule.not_allowed_address
    else if given intent.calldata (is_selector_refused w.policy)
    then reject Reason.selector_not_in_allowlist Rule.not_allowed_selector
    else accept

unfoldable pub validate_transaction :
    ℕ → TransactionIntent → AgentWallet → PolicyValidationResult × AgentWallet
unfolding check_rest
validate_transaction now intent w =
    if is_session_expired now w
    then (reject Reason.session_expired Rule.session_expired, w)
    else if intent.is_contract_deploy && not w.policy.can_deploy_contracts
    then (reject Reason.contract_deployment_not_allowed Rule.no_contract_deploy, w)
    else if ltb_ℤ w.policy.max_per_transaction intent.value
    then (
      reject (Reason.exceeds_max_per_transaction intent.value w.policy.max_per_transaction)
          Rule.max_per_transaction,
      w,
    )
    else let w' = check_day_reset now w in (check_rest intent w', w')

unfoldable pub record_spend : ℕ → ℤ → AgentWallet → AgentWallet
unfolding check_day_reset persist_state
record_spend now value w =
    let w' = check_day_reset now w in
    persist_state (record w' { daily_spent = w'.daily_spent +ℤ value })

-- The fields of `UniversalTransaction` that the wallet reads.
pub record UniversalTransaction : Type 0 where
  pub to : Option UniversalAddress
  pub value : Option ℤ
  pub calldata : Option (List ℕ)

abbrev pub intent_of : UniversalTransaction → TransactionIntent
intent_of tx = record {
  to = tx.to;
  value = or_else tx.value (pos 0);
  calldata = tx.calldata;
  is_contract_deploy = not (is_some tx.to);
}

-- `sendTransaction` up to the adapter's call; `true` says that the call is made. In the event that a
-- refusal announces, `isContractDeploy` is left out.
unfoldable pub begin_send : ℕ → UniversalTransaction → AgentWallet → Bool × AgentWallet
unfolding validate_transaction emit
begin_send now tx w =
    let (validation, w') = validate_transaction now (intent_of tx) w in
    if validation.allowed
    then (true, w')
    else let intent = record (intent_of tx) { is_contract_deploy = false } in
      (false, emit (WalletEvent.transaction_blocked intent validation.reason) w')

-- `sendTransaction` after the adapter has answered with a transaction's hash.
unfoldable pub finish_send : ℕ → UniversalTransaction → Text → AgentWallet → AgentWallet
unfolding record_spend emit
finish_send now tx hash w =
    emit (WalletEvent.transaction_sent hash w.chain_type)
      (record_spend now (or_else tx.value (pos 0)) w)

pub data SendResult : Type 0 where
  sent : Text → SendResult
  blocked adapter_failed : SendResult

-- The whole call, when nothing else happens while the adapter works; `none` is its failure.
unfoldable pub send_transaction :
    ℕ → ℕ → UniversalTransaction → Option Text → AgentWallet → SendResult × AgentWallet
unfolding begin_send finish_send
send_transaction now later tx reply w =
    let (called, w') = begin_send now tx w in
    if called
    then elim reply [
      | none ↦ (SendResult.adapter_failed, w')
      | some hash ↦ (SendResult.sent hash, finish_send later tx hash w')
    ]
    else (SendResult.blocked, w')
