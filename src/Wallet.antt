-- ===== src/Wallet.antt =====
-- wallet-sdk/src/MonmouthWallet.ts: one wallet with its enforcer, its listeners and the browser's
-- `localStorage` as the wallet sees it. A method takes the clock's reading where it reads the clock,
-- and returns the new wallet. `delivered` is what the listeners were called with, oldest first; a
-- listener does not call back into the wallet. Storage keeps the record that the JSON text encodes.
pub mod Restart
pub mod Guard
use mathlib.Core.Option
use reth_monmouth.Common.{
  with_listener, without_listener, ℕ, ◌+◌, Bool, true, false, Option, none, some, List, [], ◌∷◌,
  ◌++◌, map, if◌then◌else◌, or_else, is_some, filter, any, not, ◌&&◌, ◌==◌,
}
use reth_monmouth.Common.Int.{ℤ, pos}
use reth_monmouth.Common.Text.{Text, codes}
use reth_monmouth.Common.Assoc.{Assoc, lookup, insert, erase}
use reth_monmouth.Common.Decimal.{bigint_of_text}
use reth_monmouth.Guardrails.Policy.{
  Address, Hex, AgentType, SpendingPolicy, PolicyOverrides, Reason, PolicyValidationResult,
  TransactionIntent,
}
use reth_monmouth.Guardrails.Enforcer
use reth_monmouth.Guardrails.Enforcer.{PolicyEnforcer, StoredEnforcer, current_day}
use reth_monmouth.Guardrails.Templates.{create_policy_from_template}

pub record AgentIdentity : Type 0 where
  pub agent_id : Text
  pub agent_type : AgentType
  pub name : Text
  pub created_at : ℕ
  pub did : Option Text

-- `identity` without its creation time, and the policy's overrides.
pub record MonmouthWalletConfig : Type 0 where
  pub agent_id : Text
  pub agent_type : AgentType
  pub name : Text
  pub did : Option Text
  pub policy : PolicyOverrides

pub data WalletEvent : Type 0 where
  connected : Address → WalletEvent
  disconnected : WalletEvent
  transaction_blocked : TransactionIntent → Option Reason → WalletEvent
  transaction_sent : Hex → WalletEvent
  policy_updated : SpendingPolicy → WalletEvent
  session_expired : WalletEvent

-- What `persistState` writes.
pub record StoredWallet : Type 0 where
  pub identity : AgentIdentity
  pub enforcer : StoredEnforcer
  pub connected_address : Option Address

-- `localStorage`, or `none` where there is none.
abbrev pub Storage : Type 0
Storage = Option (Assoc StoredWallet)

pub record MonmouthWallet : Type 0 where
  pub identity : AgentIdentity
  pub enforcer : PolicyEnforcer
  pub connected_address : Option Address
  pub listeners : List ℕ
  pub monitoring : Bool
  pub storage : Storage
  pub delivered : List (ℕ × WalletEvent)

-- The storage key of an agent.
unfoldable pub storage_key : Text → Text
storage_key agent_id = codes "monmouth_wallet_" ++ agent_id

unfoldable pub emit : WalletEvent → MonmouthWallet → MonmouthWallet
emit event w = record w { delivered = w.delivered ++ map (λ l. (l, event)) w.listeners }

stored_form : MonmouthWallet → StoredWallet
stored_form w = record {
  identity = w.identity;
  enforcer = Enforcer.to_json w.enforcer;
  connected_address = w.connected_address;
}

unfoldable pub persist_state : MonmouthWallet → MonmouthWallet
unfolding stored_form storage_key
persist_state w = record w {
  storage = Option.map (insert (storage_key w.identity.agent_id) (stored_form w)) w.storage;
}

-- `state.connectedAddress` replaces the connection only if it is there.
abbrev or_kept {ℓ} : {A : Type ℓ} → Option A → Option A → Option A
or_kept none kept = kept
or_kept (some a) kept = some a

-- The body of `restoreState` on a stored state; a bad number leaves the wallet alone (the error is
-- caught).
restore_from : ℕ → StoredWallet → MonmouthWallet → MonmouthWallet
restore_from now stored w = elim (bigint_of_text stored.enforcer.daily_spent) [
  | none ↦ w
  | some spent ↦ record w {
    enforcer =
        Enforcer.create_enforcer now w.enforcer.policy spent (some stored.enforcer.last_spend_day);
    connected_address = or_kept stored.connected_address w.connected_address;
  }
]

unfoldable pub restore_state : ℕ → MonmouthWallet → MonmouthWallet
unfolding restore_from storage_key
restore_state now w = elim (Option.bind w.storage (lookup (storage_key w.identity.agent_id))) [
  | none ↦ w
  | some stored ↦ restore_from now stored w
]

-- The constructor before it reads the storage.
starting : ℕ → MonmouthWalletConfig → Storage → MonmouthWallet
starting now config storage = record {
  identity = record {
    agent_id = config.agent_id;
    agent_type = config.agent_type;
    name = config.name;
    created_at = now;
    did = config.did;
  };
  enforcer =
      Enforcer.create_enforcer now (create_policy_from_template now config.agent_type config.policy)
        (pos 0) none;
  connected_address = none;
  listeners = [];
  monitoring = false;
  storage = storage;
  delivered = [];
}

-- The constructor.
unfoldable pub create_monmouth_wallet : ℕ → MonmouthWalletConfig → Storage → MonmouthWallet
unfolding starting
create_monmouth_wallet now config storage =
    let restored = restore_state now (starting now config storage) in
    record restored { monitoring = true }

-- `{ ...currentPolicy, ...policy }`
unfoldable pub override_policy : SpendingPolicy → PolicyOverrides → SpendingPolicy
override_policy p o = record {
  max_per_transaction = or_else o.max_per_transaction p.max_per_transaction;
  max_per_day = or_else o.max_per_day p.max_per_day;
  allowed_addresses = or_else o.allowed_addresses p.allowed_addresses;
  blocked_addresses = or_else o.blocked_addresses p.blocked_addresses;
  allowed_selectors = or_else o.allowed_selectors p.allowed_selectors;
  session_expiry = or_else o.session_expiry p.session_expiry;
  can_deploy_contracts = or_else o.can_deploy_contracts p.can_deploy_contracts;
}

unfoldable pub update_policy : PolicyOverrides → MonmouthWallet → MonmouthWallet
unfolding override_policy persist_state emit
update_policy policy w =
    let new_policy = override_policy w.enforcer.policy policy in
    emit (WalletEvent.policy_updated new_policy)
      (persist_state (record w { enforcer = Enforcer.update_policy new_policy w.enforcer }))

unfoldable pub validate_transaction :
    ℕ → TransactionIntent → MonmouthWallet → PolicyValidationResult × MonmouthWallet
validate_transaction now intent w =
    let (result, e) = Enforcer.validate now intent w.enforcer in (result, record w { enforcer = e })

unfoldable pub get_remaining_daily_budget : ℕ → MonmouthWallet → ℤ × MonmouthWallet
get_remaining_daily_budget now w =
    let (left, e) = Enforcer.get_remaining_daily now w.enforcer in (left, record w { enforcer = e })

unfoldable pub get_daily_spent : ℕ → MonmouthWallet → ℤ × MonmouthWallet
get_daily_spent now w =
    let (spent, e) = Enforcer.get_daily_spent now w.enforcer in (spent, record w { enforcer = e })

unfoldable pub is_session_expired : ℕ → MonmouthWallet → Bool
is_session_expired now w = Enforcer.is_session_expired now w.enforcer

unfoldable pub get_session_time_remaining : ℕ → MonmouthWallet → ℕ
get_session_time_remaining now w = Enforcer.get_session_time_remaining now w.enforcer

unfoldable pub extend_session : ℕ → ℕ → MonmouthWallet → MonmouthWallet
unfolding persist_state
extend_session now duration w =
    let current = w.enforcer.policy in
    persist_state (record w {
      enforcer =
          Enforcer.update_policy (record current { session_expiry = now + duration }) w.enforcer;
    })

unfoldable pub set_connected_address : Address → MonmouthWallet → MonmouthWallet
unfolding persist_state emit
set_connected_address address w =
    persist_state
      (emit (WalletEvent.connected address) (record w { connected_address = some address }))

unfoldable pub clear_connection : MonmouthWallet → MonmouthWallet
unfolding persist_state emit
clear_connection w =
    persist_state (emit WalletEvent.disconnected (record w { connected_address = none }))

unfoldable pub is_connected : MonmouthWallet → Bool
is_connected w = is_some w.connected_address

unfoldable pub prepare_transaction :
    ℕ → TransactionIntent → MonmouthWallet → PolicyValidationResult × MonmouthWallet
unfolding emit validate_transaction
prepare_transaction now intent w =
    let (result, w') = validate_transaction now intent w in
    if result.allowed
    then (result, w')
    else (result, emit (WalletEvent.transaction_blocked intent result.reason) w')

unfoldable pub record_transaction : ℕ → Hex → ℤ → MonmouthWallet → MonmouthWallet
unfolding persist_state emit
record_transaction now hash value w = persist_state (
    emit (WalletEvent.transaction_sent hash)
      (record w { enforcer = Enforcer.record_spend now value w.enforcer }))

-- `on`: the listeners are a `Set`, so a listener that is there is not added again.
unfoldable pub on : ℕ → MonmouthWallet → MonmouthWallet
on listener w = record w { listeners = with_listener listener w.listeners }

-- What `on` returns: it takes the listener out again.
unfoldable pub off : ℕ → MonmouthWallet → MonmouthWallet
off listener w = record w { listeners = without_listener listener w.listeners }

pub record WalletState : Type 0 where
  pub identity : AgentIdentity
  pub policy : SpendingPolicy
  pub daily_spent : ℤ
  pub last_spend_day : ℕ
  pub is_connected : Bool

unfoldable pub get_state : ℕ → MonmouthWallet → WalletState × MonmouthWallet
unfolding get_daily_spent is_connected
get_state now w =
    let (spent, w') = get_daily_spent now w in
    (
      record {
        identity = w.identity;
        policy = w.enforcer.policy;
        daily_spent = spent;
        last_spend_day = current_day now;
        is_connected = is_connected w';
      },
      w',
    )

unfoldable pub clear_persisted_state : MonmouthWallet → MonmouthWallet
unfolding storage_key
clear_persisted_state w = record w {
  storage = Option.map (erase (storage_key w.identity.agent_id)) w.storage;
}

-- One tick of the interval that `startSessionMonitoring` sets.
unfoldable pub check_session : ℕ → MonmouthWallet → MonmouthWallet
unfolding emit is_session_expired
check_session now w =
    if w.monitoring && is_session_expired now w then emit WalletEvent.session_expired w else w

unfoldable pub destroy : MonmouthWallet → MonmouthWallet
destroy w = record w { monitoring = false; listeners = [] }
