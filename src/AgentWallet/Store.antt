-- ===== src/AgentWallet/Store.antt =====
-- wallet-sdk/src/wallet/AgentWallet.ts: how a wallet is made, stored, restored and reconfigured.
-- `loaded_at` is the time at which the module is loaded, when `DEFAULT_POLICIES` is computed.
use mathlib.Core.Option
use reth_monmouth.Common.{
  with_listener, without_listener, ℕ, ◌+◌, ◌-◌, true, false, ◌&&◌, Option, none, some, [], ◌==◌,
  ◌>>=◌, if◌then◌else◌, or_else,
}
use reth_monmouth.Common.Int.{ℤ, pos, ◌-ℤ◌, ltb_ℤ}
use reth_monmouth.Common.Text.{Text}
use reth_monmouth.Common.Assoc.{lookup, erase}
use reth_monmouth.Common.Decimal.{bigint_of_text}
use reth_monmouth.Guardrails.Policy.{AgentType, research, trading, coordinator, commerce}
use reth_monmouth.Guardrails.Enforcer.{current_day}
use reth_monmouth.AgentWallet.{
  ChainType, SpendingPolicy, PolicyOverrides, StoredPolicy, StoredWallet, Storage, AgentWallet,
  WalletEvent, emit, persist_state, storage_key, check_day_reset, is_session_expired,
}

-- How long a session of each type lasts, in milliseconds.
abbrev pub default_duration : AgentType → ℕ
default_duration research = 86_400_000
default_duration trading = 3_600_000
default_duration coordinator = 604_800_000
default_duration commerce = 14_400_000

abbrev default_limits : AgentType → ℕ × ℕ
default_limits research = (100_000_000_000_000_000, 1_000_000_000_000_000_000)
default_limits trading = (10_000_000_000_000_000_000, 100_000_000_000_000_000_000)
default_limits coordinator = (10_000_000_000_000_000, 100_000_000_000_000_000)
default_limits commerce = (1_000_000_000_000_000_000, 10_000_000_000_000_000_000)

unfoldable pub default_policies : ℕ → AgentType → SpendingPolicy
default_policies loaded_at t = record {
  max_per_transaction = pos (default_limits t).0;
  max_per_day = pos (default_limits t).1;
  allowed_addresses = [];
  blocked_addresses = [];
  allowed_selectors = [];
  session_expiry = loaded_at + default_duration t;
  can_deploy_contracts = false;
}

-- `{ ...policy, ...overrides }`
unfoldable pub override_policy : SpendingPolicy → PolicyOverrides → SpendingPolicy
override_policy p o = record {
  max_per_transaction = or_else o.max_per_transaction p.max_per_transaction;
  max_per_day = or_else o.max_per_day p.max_per_day;
  allowed_addresses = or_else o.allowed_addresses p.allowed_addresses;
  blocked_addresses = or_else o.blocked_addresses p.blocked_addresses;
  allowed_selectors = or_else o.allowed_selectors p.allowed_selectors;
  session_expiry = or_else o.session_expiry p.session_expiry;
  can_deploy_contracts = or_else o.can_deploy_contracts p.can_deploy_contracts;
}

-- `identity` without its creation time, and the policy's overrides.
pub record AgentWalletConfig : Type 0 where
  pub chain_type : ChainType
  pub agent_id : Text
  pub agent_type : AgentType
  pub name : Text
  pub policy : PolicyOverrides

-- The policy that storage holds; a limit that is not a number throws.
unfoldable pub restored_policy : StoredPolicy → Option SpendingPolicy
restored_policy stored = do
  per_transaction ← bigint_of_text stored.max_per_transaction
  per_day ← bigint_of_text stored.max_per_day
  some (record {
    max_per_transaction = per_transaction;
    max_per_day = per_day;
    allowed_addresses = stored.allowed_addresses;
    blocked_addresses = stored.blocked_addresses;
    allowed_selectors = stored.allowed_selectors;
    session_expiry = stored.session_expiry;
    can_deploy_contracts = stored.can_deploy_contracts;
  })

-- The body of `restoreState` on a stored state. An error is caught where it arises: what was restored
-- before it stays. A stored day 0 is falsy and is not restored.
unfoldable pub restore_from : StoredWallet → AgentWallet → AgentWallet
unfolding restored_policy
restore_from stored w = elim (bigint_of_text stored.daily_spent) [
  | none ↦ w
  | some spent ↦
      let day = if stored.last_spend_day == 0 then w.last_spend_day else stored.last_spend_day in
      let w' = record w { daily_spent = spent; last_spend_day = day } in
      elim (restored_policy stored.policy) [
        | none ↦ w'
        | some policy ↦ record w' { policy = policy }
      ]
]

unfoldable pub restore_state : AgentWallet → AgentWallet
unfolding restore_from storage_key
restore_state w =
    elim (Option.bind w.storage (lookup (storage_key w.identity.agent_id w.chain_type))) [
      | none ↦ w
      | some stored ↦ restore_from stored w
    ]

-- The constructor before it reads the storage.
unfoldable pub starting : ℕ → ℕ → AgentWalletConfig → Storage → AgentWallet
unfolding default_policies override_policy
starting loaded_at now config storage = record {
  chain_type = config.chain_type;
  identity = record {
    agent_id = config.agent_id;
    agent_type = config.agent_type;
    name = config.name;
    created_at = now;
  };
  policy = override_policy (default_policies loaded_at config.agent_type) config.policy;
  daily_spent = pos 0;
  last_spend_day = current_day now;
  listeners = [];
  monitoring = false;
  storage = storage;
  delivered = [];
}

-- The constructor.
unfoldable pub create_agent_wallet : ℕ → ℕ → AgentWalletConfig → Storage → AgentWallet
unfolding starting restore_state
create_agent_wallet loaded_at now config storage =
    record (restore_state (starting loaded_at now config storage)) { monitoring = true }

unfoldable pub update_policy : PolicyOverrides → AgentWallet → AgentWallet
unfolding override_policy persist_state emit
update_policy policy w =
    let new_policy = override_policy w.policy policy in
    emit (WalletEvent.policy_updated new_policy) (persist_state (record w { policy = new_policy }))

unfoldable pub extend_session : ℕ → ℕ → AgentWallet → AgentWallet
unfolding persist_state
extend_session now duration w =
    persist_state (record w { policy = record w.policy { session_expiry = now + duration } })

unfoldable pub get_remaining_daily_budget : ℕ → AgentWallet → ℤ × AgentWallet
unfolding check_day_reset
get_remaining_daily_budget now w =
    let w' = check_day_reset now w in
    let remaining = w'.policy.max_per_day -ℤ w'.daily_spent in
    (if ltb_ℤ (pos 0) remaining then remaining else pos 0, w')

unfoldable pub get_daily_spent : ℕ → AgentWallet → ℤ × AgentWallet
unfolding check_day_reset
get_daily_spent now w = let w' = check_day_reset now w in (w'.daily_spent, w')

-- `remaining > 0 ? remaining : 0`: subtraction stops at 0.
unfoldable pub get_session_time_remaining : ℕ → AgentWallet → ℕ
get_session_time_remaining now w = w.policy.session_expiry - now

-- `on`: the listeners are a `Set`, so a listener that is there is not added again.
unfoldable pub on : ℕ → AgentWallet → AgentWallet
on listener w = record w { listeners = with_listener listener w.listeners }

-- What `on` returns: it takes the listener out again.
unfoldable pub off : ℕ → AgentWallet → AgentWallet
off listener w = record w { listeners = without_listener listener w.listeners }

unfoldable pub clear_persisted_state : AgentWallet → AgentWallet
unfolding storage_key
clear_persisted_state w = record w {
  storage = Option.map (erase (storage_key w.identity.agent_id w.chain_type)) w.storage;
}

-- One tick of the interval that `startSessionMonitoring` sets.
unfoldable pub check_session : ℕ → AgentWallet → AgentWallet
unfolding emit is_session_expired
check_session now w =
    if w.monitoring && is_session_expired now w then emit WalletEvent.session_expired w else w

unfoldable pub destroy : AgentWallet → AgentWallet
destroy w = record w { monitoring = false; listeners = [] }
