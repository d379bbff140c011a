-- ===== src/Guardrails/Enforcer/Recorded.antt =====
-- The day's spending as the methods change it.
use reth_monmouth.Common.{ℕ, ◌≤◌, ◌≡◌, refl, ◌∙◌, true, arith}
use reth_monmouth.Common.Int.{ℤ, ◌+ℤ◌, ◌≤ℤ◌}
use reth_monmouth.Guardrails.Policy.{TransactionIntent}
use reth_monmouth.Guardrails.Enforcer.{
  PolicyEnforcer, current_day, maybe_reset_daily, validate, record_spend,
}
use reth_monmouth.Guardrails.Enforcer.Permission.{
  spent_today, validate_iff, validate_state, maybe_reset_daily-policy,
}

pub spent_today-record_spend :
    (now : ℕ) (value : ℤ) (e : PolicyEnforcer)
    → (spent_today now (record_spend now value e) ≡ spent_today now e +ℤ value)
      × ((record_spend now value e).policy ≡ e.policy)
unfolding record_spend
spent_today-record_spend now value e = ground arith

-- A reset on an earlier day, or on the same, does not show later.
pub spent_today-reset :
    (now later : ℕ) (e : PolicyEnforcer)
    → current_day now ≤ current_day later
    → spent_today later (maybe_reset_daily now e) ≡ spent_today later e
unfolding maybe_reset_daily
spent_today-reset now later e h = ground arith

pub spent_today-validate :
    (now later : ℕ) (intent : TransactionIntent) (e : PolicyEnforcer)
    → current_day now ≤ current_day later
    → spent_today later (validate now intent e).1 ≡ spent_today later e
spent_today-validate now later intent e h =
    ground (arith, validate_state now intent e, spent_today-reset now later e h)

pub validate-policy :
    (now : ℕ) (intent : TransactionIntent) (e : PolicyEnforcer)
    → (validate now intent e).1.policy ≡ e.policy
validate-policy now intent e =
    ground (arith, validate_state now intent e, maybe_reset_daily-policy now e)

-- An intent that was allowed and is recorded at the same time adds its value to the day's spending
-- and keeps the daily limit; the policy stays.
pub record_spend-validate :
    (now : ℕ) (intent : TransactionIntent) (e : PolicyEnforcer)
    → (validate now intent e).0.allowed ≡ true
    → let e' = record_spend now intent.value (validate now intent e).1 in
      (spent_today now e' ≡ spent_today now e +ℤ intent.value)
      × (spent_today now e' ≤ℤ e.policy.max_per_day)
      × (e'.policy ≡ e.policy)
record_spend-validate now intent e h =
    let (added, kept) = spent_today-record_spend now intent.value (validate now intent e).1 in
    let before = spent_today-validate now now intent e (omega arith) in
    let fits = ((validate_iff now intent e).0 h).within_day in
    let sum : spent_today now (record_spend now intent.value (validate now intent e).1)
        ≡ spent_today now e +ℤ intent.value =
      rw (added, before) refl in
    (sum, rw sum fits, kept ∙ validate-policy now intent e)
