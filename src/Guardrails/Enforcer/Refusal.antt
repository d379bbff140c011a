-- ===== src/Guardrails/Enforcer/Refusal.antt =====
-- Which rule `validate` names when it refuses.
use reth_monmouth.Common.{
  ℕ, ◌≤◌, ◌≡◌, refl, ◌≢◌, inl, inr, Bool, true, false, not, ◌&&◌, Option, none, some, arith, length,
  Option-cases,
}
use reth_monmouth.Common.Int.{◌+ℤ◌, ◌<ℤ◌, ltb_ℤ, ltb_ℤ_true}
use reth_monmouth.Guardrails.Policy.{Address, Hex, Rule, TransactionIntent, given}
use reth_monmouth.Guardrails.Enforcer.{
  PolicyEnforcer, is_session_expired, is_address_blocked, is_address_allowed, selector_of,
  selector_refused, validate,
}
use reth_monmouth.Guardrails.Enforcer.Permission.{
  Lists, Admits, spent_today, blocked_iff, allowed_iff, selector_iff, not_of_false,
  maybe_reset_daily-policy, maybe_reset_daily-spent,
}

-- What the intent does against each rule.
abbrev pub Violates : ℕ → TransactionIntent → PolicyEnforcer → Rule → Type 0
Violates now intent e Rule.session_expired = e.policy.session_expiry ≤ now
Violates now intent e Rule.no_contract_deploy =
    (intent.is_contract_deploy ≡ true) × (e.policy.can_deploy_contracts ≡ false)
Violates now intent e Rule.blocked_address =
    (a : Address) × (intent.to ≡ some a) × Lists e.policy.blocked_addresses a
Violates now intent e Rule.not_allowed_address =
    (a : Address) × (intent.to ≡ some a) × ¬ Admits e.policy.allowed_addresses a
Violates now intent e Rule.not_allowed_selector =
    (d : Hex) × (intent.calldata ≡ some d)
    × (10 ≤ length d)
    × ¬ Admits e.policy.allowed_selectors (selector_of d)
Violates now intent e Rule.max_per_transaction = e.policy.max_per_transaction <ℤ intent.value
Violates now intent e Rule.max_per_day = e.policy.max_per_day <ℤ (spent_today now e +ℤ intent.value)

-- How the tests come out when `validate` names a rule.
Fails : ℕ → TransactionIntent → PolicyEnforcer → Rule → Type 0
Fails now intent e Rule.session_expired = is_session_expired now e ≡ true
Fails now intent e Rule.no_contract_deploy =
    intent.is_contract_deploy && not e.policy.can_deploy_contracts ≡ true
Fails now intent e Rule.blocked_address = given intent.to (is_address_blocked e) ≡ true
Fails now intent e Rule.not_allowed_address =
    given intent.to (λ a. not (is_address_allowed e a)) ≡ true
Fails now intent e Rule.not_allowed_selector = given intent.calldata (selector_refused e) ≡ true
Fails now intent e Rule.max_per_transaction = ltb_ℤ e.policy.max_per_transaction intent.value ≡ true
Fails now intent e Rule.max_per_day =
    ltb_ℤ e.policy.max_per_day (spent_today now e +ℤ intent.value) ≡ true

validate-Fails :
    (now : ℕ) (intent : TransactionIntent) (e : PolicyEnforcer) (rule : Rule)
    → (validate now intent e).0.violated_rule ≡ some rule
    → Fails now intent e rule
unfolding validate Fails
validate-Fails now intent e Rule.session_expired h =
    ground (arith, maybe_reset_daily-policy now e, maybe_reset_daily-spent now e)
validate-Fails now intent e _ h =
    ground (arith, maybe_reset_daily-policy now e, maybe_reset_daily-spent now e)

given-true {ℓ} :
    {A : Type ℓ} (o : Option A) (test : A → Bool)
    → given o test ≡ true
    → (a : A) × (o ≡ some a) × (test a ≡ true)
given-true none test h = cc
given-true (some a) test h = (a, refl, h)

Fails-Violates :
    (now : ℕ) (intent : TransactionIntent) (e : PolicyEnforcer) (rule : Rule)
    → Fails now intent e rule
    → Violates now intent e rule
unfolding Fails is_session_expired
Fails-Violates now intent e Rule.session_expired h = ground arith
Fails-Violates now intent e Rule.no_contract_deploy h = ground arith
Fails-Violates now intent e Rule.blocked_address h =
    let (a, here, blocked) = given-true intent.to (is_address_blocked e) h in
    (a, here, (blocked_iff e a).0 blocked)
Fails-Violates now intent e Rule.not_allowed_address h =
    let (a, here, refused) = given-true intent.to (λ a. not (is_address_allowed e a)) h in
    (a, here, not_of_false _ (allowed_iff e a) (ground arith))
Fails-Violates now intent e Rule.not_allowed_selector h =
    let (d, here, refused) = given-true intent.calldata (selector_refused e) h in
    (d, here, ground arith, not_of_false _ (selector_iff e (selector_of d)) (ground arith))
Fails-Violates now intent e Rule.max_per_transaction h = ground arith
Fails-Violates now intent e Rule.max_per_day h =
    ltb_ℤ_true e.policy.max_per_day (spent_today now e +ℤ intent.value) h

validate-names :
    (now : ℕ) (intent : TransactionIntent) (e : PolicyEnforcer)
    → (validate now intent e).0.allowed ≡ false
    → (validate now intent e).0.violated_rule ≢ none
unfolding validate
validate-names now intent e h = ground arith

-- Every refusal names a rule, and the intent breaks that rule.
pub validate-Violates :
    (now : ℕ) (intent : TransactionIntent) (e : PolicyEnforcer)
    → (validate now intent e).0.allowed ≡ false
    → (rule : Rule) × ((validate now intent e).0.violated_rule ≡ some rule)
      × Violates now intent e rule
validate-Violates now intent e h = elim (Option-cases (validate now intent e).0.violated_rule) [
  | inl unnamed ↦ absurd (validate-names now intent e h unnamed)
  | inr (rule, named) ↦
      (rule, named, Fails-Violates now intent e rule (validate-Fails now intent e rule named))
]
