-- ===== src/Wallet/Restart.antt =====
-- A wallet that is created again from `localStorage`: the page is reloaded, the agent is the same.
use mathlib.Core.Option
use reth_monmouth.Common.{ℕ, ◌≡◌, refl, Option, none, some, arith}
use reth_monmouth.Common.Text.{Text}
use reth_monmouth.Common.Assoc.{Assoc, lookup, lookup-insert_self}
use reth_monmouth.Common.Decimal.{bigint_of_text-text_of_bigint}
use reth_monmouth.Guardrails.Enforcer.{create_enforcer, to_json}
use reth_monmouth.Guardrails.Templates.{create_policy_from_template}
use reth_monmouth.Wallet.{
  MonmouthWallet, MonmouthWalletConfig, StoredWallet, stored_form, storage_key, persist_state,
  restore_from, restore_state, create_monmouth_wallet, or_kept, starting,
}

persisted :
    (agent_id : Text) (w : MonmouthWallet) (m : Assoc StoredWallet)
    → w.storage ≡ some m
    → agent_id ≡ w.identity.agent_id
    → Option.bind (persist_state w).storage (lookup (storage_key agent_id)) ≡ some (stored_form w)
unfolding persist_state Option.bind
persisted agent_id w m has same =
    rw (has, same) (lookup-insert_self (storage_key w.identity.agent_id) (stored_form w) m)

restore_from-stored_form :
    (now : ℕ) (w fresh : MonmouthWallet)
    → let restored = restore_from now (stored_form w) fresh in
      (restored.enforcer ≡ record w.enforcer { policy = fresh.enforcer.policy })
      × (restored.connected_address ≡ or_kept w.connected_address fresh.connected_address)
unfolding restore_from stored_form create_enforcer to_json
restore_from-stored_form now w fresh =
    ground (arith, bigint_of_text-text_of_bigint w.enforcer.daily_spent)

restore_state-some :
    (now : ℕ) (w : MonmouthWallet) (stored : StoredWallet)
    → Option.bind w.storage (lookup (storage_key w.identity.agent_id)) ≡ some stored
    → restore_state now w ≡ restore_from now stored w
unfolding restore_state
restore_state-some now w stored h = rw (h, restore_state)

or_kept-none {ℓ} : {A : Type ℓ} (o : Option A) → or_kept o none ≡ o
or_kept-none none = refl
or_kept-none (some a) = refl

-- What a restart reads back after a wallet of the same agent has persisted itself: the spending
-- and its day, and the connection. The policy is the one that the configuration gives.
pub create-persist :
    (later : ℕ) (config : MonmouthWalletConfig) (w : MonmouthWallet) (m : Assoc StoredWallet)
    → w.storage ≡ some m
    → config.agent_id ≡ w.identity.agent_id
    → let fresh = create_monmouth_wallet later config (persist_state w).storage in
      (fresh.enforcer.daily_spent ≡ w.enforcer.daily_spent)
      × (fresh.enforcer.last_spend_day ≡ w.enforcer.last_spend_day)
      × (fresh.connected_address ≡ w.connected_address)
      × (fresh.enforcer.policy ≡ create_policy_from_template later config.agent_type config.policy)
unfolding create_monmouth_wallet create_enforcer
create-persist later config w m has same =
    let fresh = starting later config (persist_state w).storage in
    let found =
      restore_state-some later fresh (stored_form w) (persisted config.agent_id w m has same) in
    let (enforcer, connection) = restore_from-stored_form later w fresh in
    rw (found, enforcer, connection) (refl, refl, or_kept-none w.connected_address, refl)
