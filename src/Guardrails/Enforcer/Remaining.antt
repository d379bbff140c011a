-- ===== src/Guardrails/Enforcer/Remaining.antt =====
-- What the getters of the enforcer promise, and its serialised form.
use reth_monmouth.Common.{ℕ, ◌≡◌, ◌↔◌, if◌then◌else◌, some}
use reth_monmouth.Common.Int.{ℤ, pos, ◌+ℤ◌, ◌-ℤ◌, ◌≤ℤ◌, ◌<ℤ◌, ltb_ℤ, int_laws}
use reth_monmouth.Common.Decimal.{bigint_of_text-text_of_bigint}
use reth_monmouth.Guardrails.Enforcer.{PolicyEnforcer, get_remaining_daily, to_json, from_json}
use reth_monmouth.Guardrails.Enforcer.Permission.{
  spent_today, maybe_reset_daily-policy, maybe_reset_daily-spent,
}

-- `getRemainingDaily` is never negative, and a positive value fits the day exactly if it is at most
-- what remains.
pub get_remaining_daily_iff :
    (now : ℕ) (e : PolicyEnforcer) (value : ℤ)
    → pos 0 <ℤ value
    → let remaining = (get_remaining_daily now e).0 in
      (pos 0 ≤ℤ remaining)
      × ((value ≤ℤ remaining) ↔ (spent_today now e +ℤ value ≤ℤ e.policy.max_per_day))
unfolding get_remaining_daily
get_remaining_daily_iff now e value h =
    let (low, to, back) = clipped e.policy.max_per_day (spent_today now e) value h in
    rw (maybe_reset_daily-policy now e, maybe_reset_daily-spent now e) (low, (to, back))
  where
    clipped :
        (limit spent v : ℤ)
        → pos 0 <ℤ v
        → let remaining = (if ltb_ℤ (pos 0) (limit -ℤ spent) then limit -ℤ spent else pos 0) in
          (pos 0 ≤ℤ remaining)
          × (v ≤ℤ remaining → spent +ℤ v ≤ℤ limit)
          × (spent +ℤ v ≤ℤ limit → v ≤ℤ remaining)
    clipped limit spent v h = grind int_laws

-- An enforcer comes back from its serialised form as it was, whatever the time.
pub from_json-to_json : (now : ℕ) (e : PolicyEnforcer) → from_json now (to_json e) ≡ some e
unfolding to_json from_json
from_json-to_json now e = rw (bigint_of_text-text_of_bigint e.daily_spent)
