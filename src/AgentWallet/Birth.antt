-- ===== src/AgentWallet/Birth.antt =====
-- A wallet that is created, or created again from `localStorage`.
use mathlib.Core.Option
use reth_monmouth.Common.{ℕ, ◌+◌, ◌<◌, ◌≡◌, ◌≢◌, refl, none, some, arith}
use reth_monmouth.Common.Text.{Text}
use reth_monmouth.Common.Assoc.{Assoc, lookup, lookup-insert_self}
use reth_monmouth.Common.Decimal.{bigint_of_text-text_of_bigint}
use reth_monmouth.Guardrails.Policy.{Rule}
use reth_monmouth.AgentWallet.{
  AgentWallet, StoredWallet, ChainType, storage_key, stored_form, persist_state, TransactionIntent,
  validate_transaction, is_session_expired, Reason, reject,
}
use reth_monmouth.AgentWallet.Store.{
  AgentWalletConfig, create_agent_wallet, starting, restore_state, restore_from, restored_policy,
  default_duration, default_policies, override_policy,
}

persisted :
    (agent_id : Text) (chain : ChainType) (w : AgentWallet) (m : Assoc StoredWallet)
    → w.storage ≡ some m
    → agent_id ≡ w.identity.agent_id
    → chain ≡ w.chain_type
    → Option.bind (persist_state w).storage (lookup (storage_key agent_id chain))
      ≡ some (stored_form w)
unfolding persist_state Option.bind
persisted agent_id chain w m has same same_chain =
    rw (has, same, same_chain)
      (lookup-insert_self (storage_key w.identity.agent_id w.chain_type) (stored_form w) m)

restore_from-stored_form :
    (w fresh : AgentWallet)
    → w.last_spend_day ≢ 0
    → restore_from (stored_form w) fresh ≡ record fresh {
      daily_spent = w.daily_spent;
      last_spend_day = w.last_spend_day;
      policy = w.policy;
    }
unfolding restore_from stored_form restored_policy
restore_from-stored_form w fresh day = ground (
  arith,
  bigint_of_text-text_of_bigint w.daily_spent,
  bigint_of_text-text_of_bigint w.policy.max_per_transaction,
  bigint_of_text-text_of_bigint w.policy.max_per_day,
)

restore_state-some :
    (w : AgentWallet) (stored : StoredWallet)
    → Option.bind w.storage (lookup (storage_key w.identity.agent_id w.chain_type)) ≡ some stored
    → restore_state w ≡ restore_from stored w
unfolding restore_state
restore_state-some w stored h = rw (h, restore_state)

-- A wallet that is created from what a wallet of the same agent and chain has persisted has that
-- wallet's spending, day and whole policy; the configuration's own policy is not used. The stored day
-- is not day 0.
pub create_agent_wallet-persist_state :
    (loaded_at later : ℕ) (config : AgentWalletConfig) (w : AgentWallet) (m : Assoc StoredWallet)
    → w.storage ≡ some m
    → config.agent_id ≡ w.identity.agent_id
    → config.chain_type ≡ w.chain_type
    → w.last_spend_day ≢ 0
    → let fresh = create_agent_wallet loaded_at later config (persist_state w).storage in
      (fresh.daily_spent ≡ w.daily_spent)
      × (fresh.last_spend_day ≡ w.last_spend_day)
      × (fresh.policy ≡ w.policy)
unfolding create_agent_wallet starting
create_agent_wallet-persist_state loaded_at later config w m has same same_chain day =
    let fresh = starting loaded_at later config (persist_state w).storage in
    let found =
      restore_state-some fresh (stored_form w)
        (persisted config.agent_id config.chain_type w m has same same_chain) in
    rw (found, restore_from-stored_form w fresh day) (refl, refl, refl)

restore_state-none : (w : AgentWallet) → w.storage ≡ none → restore_state w ≡ w
unfolding restore_state Option.bind
restore_state-none w h = rw h

-- A wallet without storage and without a `sessionExpiry` of its own refuses every transaction
-- from the start, if it is created later after the module was loaded than a session of its type lasts.
pub born_expired :
    (loaded_at now : ℕ) (config : AgentWalletConfig) (intent : TransactionIntent)
    → config.policy.session_expiry ≡ none
    → loaded_at + default_duration config.agent_type < now
    → let fresh = create_agent_wallet loaded_at now config none in
      validate_transaction now intent fresh
      ≡ (reject Reason.session_expired Rule.session_expired, fresh)
unfolding create_agent_wallet starting validate_transaction is_session_expired default_policies
    override_policy
born_expired loaded_at now config intent own late =
    ground (arith, restore_state-none (starting loaded_at now config none) refl)
