-- ===== src/Guardrails/Enforcer.antt =====
-- wallet-sdk/src/guardrails/PolicyEnforcer.ts. A method takes the clock's reading `now`, which is
-- one reading for the whole of a synchronous call, and returns the new enforcer where it has one.
pub mod Permission
pub mod Refusal
pub mod Budget
pub mod Ledger
pub mod Remaining
pub mod Recorded
use mathlib.Core.Option
use reth_monmouth.Common.Decimal.{text_of_bigint, bigint_of_text}
use reth_monmouth.Common.{
  ℕ, ◌-◌, ◌/◌, Bool, true, not, ◌&&◌, Option, some, List, ltb, leb, or_else, if◌then◌else◌, any,
  is_empty, length, take,
}
use reth_monmouth.Common.Int.{ℤ, pos, ◌+ℤ◌, ◌-ℤ◌, ltb_ℤ}
use reth_monmouth.Common.Text.{Text, same_folded}
use reth_monmouth.Guardrails.Policy.{
  Address, Hex, SpendingPolicy, Rule, Reason, PolicyValidationResult, TransactionIntent, accept,
  reject, given,
}

pub record PolicyEnforcer : Type 0 where
  pub policy : SpendingPolicy
  pub daily_spent : ℤ
  pub last_spend_day : ℕ

-- 24 * 60 * 60 * 1000
abbrev pub ms_per_day : ℕ
ms_per_day = 86_400_000

-- `getCurrentDay`
abbrev pub current_day : ℕ → ℕ
current_day now = now / ms_per_day

-- The constructor; `lastSpendDay` defaults to today.
unfoldable pub create_enforcer : ℕ → SpendingPolicy → ℤ → Option ℕ → PolicyEnforcer
create_enforcer now policy daily_spent last_spend_day = record {
  policy = policy;
  daily_spent = daily_spent;
  last_spend_day = or_else last_spend_day (current_day now);
}

unfoldable pub maybe_reset_daily : ℕ → PolicyEnforcer → PolicyEnforcer
maybe_reset_daily now e =
    if ltb e.last_spend_day (current_day now)
    then record e { daily_spent = pos 0; last_spend_day = current_day now }
    else e

unfoldable pub is_session_expired : ℕ → PolicyEnforcer → Bool
is_session_expired now e = leb e.policy.session_expiry now

unfoldable pub is_address_blocked : PolicyEnforcer → Address → Bool
is_address_blocked e address =
    any (λ blocked. same_folded blocked address) e.policy.blocked_addresses

unfoldable pub is_address_allowed : PolicyEnforcer → Address → Bool
is_address_allowed e address =
    if is_empty e.policy.allowed_addresses
    then true
    else any (λ allowed. same_folded allowed address) e.policy.allowed_addresses

unfoldable pub is_selector_allowed : PolicyEnforcer → Hex → Bool
is_selector_allowed e selector =
    if is_empty e.policy.allowed_selectors
    then true
    else any (λ allowed. same_folded allowed selector) e.policy.allowed_selectors

-- `data.slice(0, 10)`: `0x` and four bytes
abbrev pub selector_of : Hex → Hex
selector_of calldata = take 10 calldata

abbrev pub selector_refused : PolicyEnforcer → Hex → Bool
selector_refused e calldata =
    leb 10 (length calldata) && not (is_selector_allowed e (selector_of calldata))

-- The last two checks of `validate`, after the daily reset.
check_daily : TransactionIntent → PolicyEnforcer → PolicyValidationResult × PolicyEnforcer
check_daily intent e =
    if ltb_ℤ e.policy.max_per_day (e.daily_spent +ℤ intent.value)
    then (
      reject (Reason.would_exceed_daily_limit e.daily_spent intent.value e.policy.max_per_day)
          Rule.max_per_day,
      e,
    )
    else (accept, e)

unfoldable pub validate :
    ℕ → TransactionIntent → PolicyEnforcer → PolicyValidationResult × PolicyEnforcer
unfolding check_daily
validate now intent e =
    if is_session_expired now e
    then (reject Reason.session_has_expired Rule.session_expired, e)
    else if intent.is_contract_deploy && not e.policy.can_deploy_contracts
    then (reject Reason.contract_deployment_not_allowed Rule.no_contract_deploy, e)
    else if given intent.to (is_address_blocked e)
    then (reject (Reason.address_is_blocked intent.to) Rule.blocked_address, e)
    else if given intent.to (λ a. not (is_address_allowed e a))
    then (reject (Reason.address_is_not_in_allowlist intent.to) Rule.not_allowed_address, e)
    else if given intent.calldata (selector_refused e)
    then (
      reject (Reason.selector_is_not_allowed (selector_of (or_else intent.calldata List.[])))
          Rule.not_allowed_selector,
      e,
    )
    else if ltb_ℤ e.policy.max_per_transaction intent.value
    then (
      reject (Reason.exceeds_per_transaction_limit intent.value e.policy.max_per_transaction)
          Rule.max_per_transaction,
      e,
    )
    else check_daily intent (maybe_reset_daily now e)

unfoldable pub record_spend : ℕ → ℤ → PolicyEnforcer → PolicyEnforcer
unfolding maybe_reset_daily
record_spend now amount e =
    let e' = maybe_reset_daily now e in record e' { daily_spent = e'.daily_spent +ℤ amount }

unfoldable pub get_remaining_daily : ℕ → PolicyEnforcer → ℤ × PolicyEnforcer
get_remaining_daily now e =
    let e' = maybe_reset_daily now e in
    let remaining = e'.policy.max_per_day -ℤ e'.daily_spent in
    (if ltb_ℤ (pos 0) remaining then remaining else pos 0, e')

unfoldable pub get_daily_spent : ℕ → PolicyEnforcer → ℤ × PolicyEnforcer
get_daily_spent now e = let e' = maybe_reset_daily now e in (e'.daily_spent, e')

unfoldable pub get_session_time_remaining : ℕ → PolicyEnforcer → ℕ
get_session_time_remaining now e =
    if ltb now e.policy.session_expiry then e.policy.session_expiry - now else 0

unfoldable pub update_policy : SpendingPolicy → PolicyEnforcer → PolicyEnforcer
update_policy policy e = record e { policy = policy }

-- What `toJSON` returns; the policy is kept as it is.
pub record StoredEnforcer : Type 0 where
  pub policy : SpendingPolicy
  pub daily_spent : Text
  pub last_spend_day : ℕ

unfoldable pub to_json : PolicyEnforcer → StoredEnforcer
to_json e = record {
  policy = e.policy;
  daily_spent = text_of_bigint e.daily_spent;
  last_spend_day = e.last_spend_day;
}

-- `fromJSON`; `none` is the `SyntaxError` of `BigInt`.
unfoldable pub from_json : ℕ → StoredEnforcer → Option PolicyEnforcer
unfolding create_enforcer
from_json now stored =
    Option.map (λ spent. create_enforcer now stored.policy spent (some stored.last_spend_day))
      (bigint_of_text stored.daily_spent)
