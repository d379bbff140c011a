-- ===== src/Tests/AgentWallet.antt =====
-- Tests of the multi-chain wallet (wallet-sdk/src/wallet/AgentWallet.ts).
use reth_monmouth.Common.{ℕ, ◌≡◌, ◌↔◌, refl, true, false, none, some, List, [], ◌∷◌, arith}
use reth_monmouth.Common.Int.{pos, ◌+ℤ◌}
use reth_monmouth.Common.Text.{codes, same_folded, starts_with}
use reth_monmouth.Guardrails.Policy.{trading}
use reth_monmouth.AgentWallet.{
  AgentWallet, ChainType, UniversalAddress, UniversalTransaction, PolicyOverrides, SendResult,
  intent_of, persist_state, is_listed, is_selector_refused, check_rest, check_day_reset,
  is_session_expired, validate_transaction, record_spend, begin_send, finish_send, send_transaction,
}
use reth_monmouth.AgentWallet.Store.{AgentWalletConfig, create_agent_wallet}
use reth_monmouth.AgentWallet.Permission.{IsPermitted, spent_today, validate_transaction_iff}
use reth_monmouth.AgentWallet.Send.{
  Call, WithinBudget, charged, send_all, overlap, send_transaction-charged, send_all-WithinBudget,
  overlap_charges_both,
}
use reth_monmouth.AgentWallet.Birth.{create_agent_wallet-persist_state}

agents : Unit {0}
unfolding send_transaction begin_send finish_send record_spend validate_transaction check_rest
    check_day_reset is_session_expired is_listed is_selector_refused same_folded starts_with overlap
    ◌+ℤ◌
agents = tt

abbrev bob : UniversalAddress
bob = record { raw = 1 ∷ []; display = codes "0xB0B"; chain_type = ChainType.evm }

abbrev wallet : AgentWallet
wallet = record {
  chain_type = ChainType.evm;
  identity = record {
    agent_id = codes "trader";
    agent_type = trading;
    name = codes "Trader";
    created_at = 0;
  };
  policy = record {
    max_per_transaction = pos 60;
    max_per_day = pos 100;
    allowed_addresses = bob ∷ [];
    blocked_addresses = [];
    allowed_selectors = (1 ∷ 2 ∷ 3 ∷ 4 ∷ []) ∷ [];
    session_expiry = 1_000_000_000;
    can_deploy_contracts = false;
  };
  daily_spent = pos 0;
  last_spend_day = 3;
  listeners = [];
  monitoring = true;
  storage = some [];
  delivered = [];
}

abbrev noon : ℕ
noon = 300_000_000

abbrev pay : ℕ → UniversalTransaction
pay n = record {
  to = some (record bob { display = codes "0xb0b" });
  value = some (pos n);
  calldata = some (1 ∷ 2 ∷ 3 ∷ 4 ∷ 5 ∷ []);
}

agent_tests :
    ((send_transaction noon noon (pay 60) (some (codes "0x1")) wallet).1.daily_spent ≡ pos 60)
    × ((send_transaction noon noon (pay 61) (some (codes "0x1")) wallet).0 ≡ SendResult.blocked)
    × ((overlap noon noon (pay 60) (pay 60) (codes "0x1") (codes "0x2") wallet).1.daily_spent
        ≡ pos 120)
unfolding agents
agent_tests = (refl, refl, refl)

validate_transaction_iff_example :
    ((validate_transaction noon (intent_of (pay 60)) wallet).0.allowed ≡ true)
    ↔ IsPermitted noon (intent_of (pay 60)) wallet
validate_transaction_iff_example = validate_transaction_iff noon (intent_of (pay 60)) wallet

pay-IsPermitted : IsPermitted noon (intent_of (pay 60)) wallet
unfolding agents
pay-IsPermitted = (validate_transaction_iff noon (intent_of (pay 60)) wallet).0 refl

send_transaction-charged_example :
    let (result, w') = send_transaction noon 300_000_500 (pay 60) (some (codes "0x1")) wallet in
    spent_today 300_000_500 w' ≡ spent_today noon wallet +ℤ charged (pay 60) result
send_transaction-charged_example =
    send_transaction-charged noon 300_000_500 (pay 60) (some (codes "0x1")) wallet refl

abbrev calls : List Call
calls =
    record { made = noon; answered = noon; tx = pay 60; reply = some (codes "0x1") }
    ∷ record { made = noon; answered = 400_000_000; tx = pay 40; reply = some (codes "0x2") }
    ∷ []

send_all-WithinBudget_example : WithinBudget (send_all calls wallet)
send_all-WithinBudget_example =
    send_all-WithinBudget calls wallet (omega arith, (omega arith, tt)) (omega arith, omega arith)

overlap_charges_both_example :
    let (called, w') = overlap noon noon (pay 60) (pay 60) (codes "0x1") (codes "0x2") wallet in
    (called ≡ true) × (spent_today noon w' ≡ spent_today noon wallet +ℤ pos 60 +ℤ pos 60)
overlap_charges_both_example =
    overlap_charges_both noon noon (pay 60) (pay 60) (codes "0x1") (codes "0x2") wallet
      pay-IsPermitted pay-IsPermitted refl

abbrev no_overrides : PolicyOverrides
no_overrides = record {
  max_per_transaction = none;
  max_per_day = none;
  allowed_addresses = none;
  blocked_addresses = none;
  allowed_selectors = none;
  session_expiry = none;
  can_deploy_contracts = none;
}

abbrev config : AgentWalletConfig
config = record {
  chain_type = ChainType.evm;
  agent_id = codes "trader";
  agent_type = trading;
  name = codes "Trader";
  policy = no_overrides;
}

create_agent_wallet-persist_state_example :
    let fresh = create_agent_wallet 0 310_000_000 config (persist_state wallet).storage in
    (fresh.daily_spent ≡ pos 0) × (fresh.last_spend_day ≡ 3) × (fresh.policy ≡ wallet.policy)
create_agent_wallet-persist_state_example =
    create_agent_wallet-persist_state 0 310_000_000 config wallet [] refl refl refl (λ e. cc)
