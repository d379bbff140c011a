-- ===== src/Tests/Guardrails.antt =====
-- Tests of the guardrails (wallet-sdk/src/guardrails).
use reth_monmouth.Common.{ℕ, ◌≡◌, ◌↔◌, refl, true, false, none, some, List, [], ◌∷◌, arith}
use reth_monmouth.Common.Int.{ℤ, pos, negsuc, ◌+ℤ◌, ◌≤ℤ◌}
use reth_monmouth.Common.Text.{Text, codes, same_folded}
use reth_monmouth.Guardrails.Policy.{SpendingPolicy, TransactionIntent, Rule, accept}
use reth_monmouth.Guardrails.Enforcer.{
  PolicyEnforcer, validate, record_spend, get_remaining_daily, get_daily_spent, current_day,
  is_session_expired, is_address_blocked, is_address_allowed, is_selector_allowed,
  maybe_reset_daily,
}
use reth_monmouth.Guardrails.Enforcer.Permission.{IsPermitted, spent_today, validate_iff}
use reth_monmouth.Guardrails.Enforcer.Refusal.{Violates, validate-Violates}
use reth_monmouth.Guardrails.Enforcer.Budget.{attempt, accepted}
use reth_monmouth.Guardrails.Enforcer.Ledger.{
  Call, validates, records, run, recorded_on, carried, ledger, validate-run_iff,
}
use reth_monmouth.Guardrails.Enforcer.Remaining.{get_remaining_daily_iff}

-- Everything that the tests of the guardrails compute with.
guards : Unit {0}
unfolding validate record_spend get_remaining_daily is_session_expired is_address_blocked
    is_address_allowed is_selector_allowed same_folded maybe_reset_daily ◌+ℤ◌ attempt accepted
guards = tt

abbrev policy : SpendingPolicy
policy = record {
  max_per_transaction = pos 60;
  max_per_day = pos 100;
  allowed_addresses = [];
  blocked_addresses = codes "0xBAD" ∷ [];
  allowed_selectors = codes "0xA9059CBB" ∷ [];
  session_expiry = 1_000_000_000;
  can_deploy_contracts = false;
}

abbrev enforcer : PolicyEnforcer
enforcer = record { policy = policy; daily_spent = pos 30; last_spend_day = 3 }

-- A time of day 3.
abbrev noon : ℕ
noon = 300_000_000

abbrev sending : Text → ℤ → TransactionIntent
sending to value = record {
  to = some to;
  value = value;
  calldata = none;
  is_contract_deploy = false;
}

abbrev payment : TransactionIntent
payment = sending (codes "0xc0ffee") (pos 50)

validate_tests :
    (validate noon payment enforcer ≡ (accept, enforcer))
    × ((validate noon (sending (codes "0xbad") (pos 1)) enforcer).0.violated_rule
        ≡ some Rule.blocked_address)
    × ((validate noon (sending (codes "0xc0ffee") (pos 61)) enforcer).0.violated_rule
        ≡ some Rule.max_per_transaction)
    × ((validate 1_000_000_000 payment enforcer).0.violated_rule ≡ some Rule.session_expired)
    × ((validate 400_000_000 payment enforcer).1.daily_spent ≡ pos 0)
unfolding guards
validate_tests = (refl, refl, refl, refl, refl)

-- A negative value passes every limit and gives back budget.
negative_value :
    ((validate noon (sending (codes "0xc0ffee") (negsuc 29)) enforcer).0.allowed ≡ true)
    × ((record_spend noon (negsuc 29) enforcer).daily_spent ≡ pos 0)
unfolding guards
negative_value = (refl, refl)

validate_iff_example :
    ((validate noon payment enforcer).0.allowed ≡ true) ↔ IsPermitted noon payment enforcer
validate_iff_example = validate_iff noon payment enforcer

abbrev too_much : TransactionIntent
too_much = sending (codes "0xc0ffee") (pos 61)

validate-Violates_example :
    (rule : Rule) × ((validate noon too_much enforcer).0.violated_rule ≡ some rule)
    × Violates noon too_much enforcer rule
unfolding guards
validate-Violates_example = validate-Violates noon too_much enforcer refl

abbrev day_of_payments : List (ℕ × TransactionIntent)
day_of_payments = (noon, payment) ∷ (noon, payment) ∷ (400_000_000, payment) ∷ []

accepted_test : accepted day_of_payments enforcer ≡ (3, pos 50) ∷ (4, pos 50) ∷ []
unfolding guards
accepted_test = refl

-- Two payments that are both validated before either is recorded.
abbrev overlapping : List (ℕ × Call)
overlapping =
    (noon, validates payment)
    ∷ (noon, validates payment)
    ∷ (noon, records (pos 50))
    ∷ (noon, records (pos 50))
    ∷ []

overlapping_spent : recorded_on (current_day noon) overlapping ≡ pos 100
unfolding guards
overlapping_spent = refl

validate-run_iff_example :
    ((get_daily_spent noon (run overlapping enforcer)).0
      ≡ recorded_on (current_day noon) overlapping +ℤ carried (current_day noon) enforcer)
    × (((validate noon payment (run overlapping enforcer)).0.allowed ≡ true)
        ↔ IsPermitted noon payment (ledger noon overlapping enforcer))
validate-run_iff_example = validate-run_iff noon overlapping enforcer payment (omega arith)

get_remaining_daily_iff_example :
    let remaining = (get_remaining_daily noon enforcer).0 in
    (pos 0 ≤ℤ remaining)
    × ((pos 70 ≤ℤ remaining) ↔ (spent_today noon enforcer +ℤ pos 70 ≤ℤ enforcer.policy.max_per_day))
get_remaining_daily_iff_example = get_remaining_daily_iff noon enforcer (pos 70) (omega arith)
