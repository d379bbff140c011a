-- ===== src/Tests/Wallet.antt =====
-- Tests of the wallet (wallet-sdk/src/MonmouthWallet.ts).
use reth_monmouth.Common.{ℕ, ◌≡◌, refl, true, false, none, some, [], ◌∷◌}
use reth_monmouth.Common.Int.{pos, ◌+ℤ◌, ◌≤ℤ◌}
use reth_monmouth.Common.Text.{Text, codes}
use reth_monmouth.Guardrails.Policy.{TransactionIntent, PolicyOverrides, research, Rule, Hex}
use reth_monmouth.Guardrails.Enforcer
use reth_monmouth.Guardrails.Enforcer.{PolicyEnforcer}
use reth_monmouth.Guardrails.Enforcer.Permission.{spent_today}
use reth_monmouth.Wallet.{
  MonmouthWallet, MonmouthWalletConfig, WalletEvent, create_monmouth_wallet, prepare_transaction,
  record_transaction, validate_transaction, set_connected_address, on,
}
use reth_monmouth.Wallet.Guard.{record_transaction-validate}

wallets : Unit {0}
unfolding create_monmouth_wallet validate_transaction prepare_transaction record_transaction
    set_connected_address on Enforcer.validate Enforcer.is_session_expired
    Enforcer.is_address_blocked Enforcer.is_address_allowed Enforcer.maybe_reset_daily
    Enforcer.record_spend ◌+ℤ◌
wallets = tt

abbrev no_overrides : PolicyOverrides
no_overrides = record {
  max_per_transaction = none;
  max_per_day = none;
  allowed_addresses = none;
  blocked_addresses = none;
  allowed_selectors = none;
  session_expiry = none;
  can_deploy_contracts = none;
}

abbrev config : MonmouthWalletConfig
config = record {
  agent_id = codes "scout";
  agent_type = research;
  name = codes "Scout";
  did = none;
  policy = no_overrides;
}

abbrev noon : ℕ
noon = 300_000_000

abbrev alice : Text
alice = codes "0xA11CE"

abbrev payment : TransactionIntent
payment = record { to = some alice; value = pos 1_000; calldata = none; is_contract_deploy = false }

-- A research wallet with one listener.
abbrev wallet : MonmouthWallet
wallet = record {
  identity = record {
    agent_id = codes "scout";
    agent_type = research;
    name = codes "Scout";
    created_at = noon;
    did = none;
  };
  enforcer = record {
    policy = record {
      max_per_transaction = pos 5_000;
      max_per_day = pos 20_000;
      allowed_addresses = [];
      blocked_addresses = [];
      allowed_selectors = [];
      session_expiry = 400_000_000;
      can_deploy_contracts = false;
    };
    daily_spent = pos 300;
    last_spend_day = 3;
  };
  connected_address = some alice;
  listeners = 7 ∷ [];
  monitoring = true;
  storage = some [];
  delivered = [];
}

abbrev deploy : TransactionIntent
deploy = record { to = none; value = pos 0; calldata = none; is_contract_deploy = true }

wallet_tests :
    ((prepare_transaction noon payment wallet).1.delivered ≡ [])
    × ((prepare_transaction noon deploy wallet).0.violated_rule ≡ some Rule.no_contract_deploy)
    × ((record_transaction noon (codes "0x1") (pos 5) wallet).enforcer.daily_spent ≡ pos 305)
unfolding wallets
wallet_tests = (refl, refl, refl)

abbrev after_payment : Hex → MonmouthWallet
after_payment hash =
    record_transaction noon hash (pos 1_000) (validate_transaction noon payment wallet).1

record_transaction-validate_example :
    (spent_today noon (after_payment (codes "0x1")).enforcer
      ≡ spent_today noon wallet.enforcer +ℤ pos 1_000)
    × (spent_today noon (after_payment (codes "0x1")).enforcer ≤ℤ pos 20_000)
    × ((after_payment (codes "0x1")).enforcer.policy ≡ wallet.enforcer.policy)
    × ((after_payment (codes "0x1")).delivered
        ≡ (7, WalletEvent.transaction_sent (codes "0x1")) ∷ [])
unfolding wallets
record_transaction-validate_example =
    record_transaction-validate noon payment (codes "0x1") wallet refl
