-- ===== src/Guardrails/Enforcer/Permission.antt =====
-- What `validate` lets through, and which rule it names when it refuses.
use reth_monmouth.Common.{
  ℕ, ◌≤◌, ◌<◌, ◌≡◌, refl, ◌⊎◌, ◌↔◌, ap, inl, inr, Bool, true, false, not, ◌&&◌, Option, none, some,
  List, [], ◌∷◌, arith, ltb, leb, if◌then◌else◌, Some, any, any_iff, length, is_empty, Bool-cases,
}
use reth_monmouth.Common.Int.{ℤ, pos, ◌+ℤ◌, ◌≤ℤ◌, ltb_ℤ, ltb_ℤ_false, ltb_ℤ_of_le}
use reth_monmouth.Common.Text.{Text, lower, same_folded, same_folded_iff}
use reth_monmouth.Guardrails.Policy.{Address, Hex, TransactionIntent, accept, given}
use reth_monmouth.Guardrails.Enforcer.{
  PolicyEnforcer, is_session_expired, is_address_blocked, is_address_allowed, is_selector_allowed,
  selector_of, selector_refused, maybe_reset_daily, validate, current_day,
}

-- The text is in the list, up to the case of letters.
abbrev pub Lists : List Text → Text → Type 0
Lists entries text = Some (λ entry. lower entry ≡ lower text) entries

-- An empty list restricts nothing.
abbrev pub Admits : List Text → Text → Type 0
Admits entries text = (entries ≡ []) ⊎ Lists entries text

-- What has been spent on the day of `now`: nothing, if what is held is of a day before.
abbrev pub spent_today : ℕ → PolicyEnforcer → ℤ
spent_today now e = if ltb e.last_spend_day (current_day now) then pos 0 else e.daily_spent

-- An intent that the policy permits at the time `now`.
pub record IsPermitted (now : ℕ) (intent : TransactionIntent) (e : PolicyEnforcer) : Type 0 where
  pub active : now < e.policy.session_expiry
  pub deploys : intent.is_contract_deploy ≡ true → e.policy.can_deploy_contracts ≡ true
  pub not_blocked : (a : Address) → intent.to ≡ some a → ¬ Lists e.policy.blocked_addresses a
  pub listed : (a : Address) → intent.to ≡ some a → Admits e.policy.allowed_addresses a
  pub selector :
      (d : Hex)
      → intent.calldata ≡ some d
      → 10 ≤ length d
      → Admits e.policy.allowed_selectors (selector_of d)
  pub within_transaction : intent.value ≤ℤ e.policy.max_per_transaction
  pub within_day : spent_today now e +ℤ intent.value ≤ℤ e.policy.max_per_day

any_folded_iff :
    (entries : List Text) (text : Text)
    → (any (λ entry. same_folded entry text) entries ≡ true) ↔ Lists entries text
any_folded_iff entries text = any_iff _ (λ entry. same_folded_iff entry text) entries

-- A filter by an allowlist, as `isAddressAllowed` and `isSelectorAllowed` test it.
abbrev admits : List Text → Text → Bool
admits entries text =
    if is_empty entries then true else any (λ entry. same_folded entry text) entries

admits_iff :
    (entries : List Text) (text : Text) → (admits entries text ≡ true) ↔ Admits entries text
admits_iff [] text = (λ h. inl refl, λ h. refl)
admits_iff (x ∷ xs) text = (λ h. inr (listed.0 h), back)
  where
    listed : (any (λ entry. same_folded entry text) (x ∷ xs) ≡ true) ↔ Lists (x ∷ xs) text
    listed = any_folded_iff (x ∷ xs) text

    back : Admits (x ∷ xs) text → any (λ entry. same_folded entry text) (x ∷ xs) ≡ true
    back (inl h) = cc
    back (inr h) = listed.1 h

-- The seven tests of `validate`, each as it must come out.
record Passes (now : ℕ) (intent : TransactionIntent) (e : PolicyEnforcer) : Type 0 where
  active : is_session_expired now e ≡ false
  deploys : intent.is_contract_deploy && not e.policy.can_deploy_contracts ≡ false
  not_blocked : given intent.to (is_address_blocked e) ≡ false
  listed : given intent.to (λ a. not (is_address_allowed e a)) ≡ false
  selector : given intent.calldata (selector_refused e) ≡ false
  within_transaction : ltb_ℤ e.policy.max_per_transaction intent.value ≡ false
  within_day : ltb_ℤ e.policy.max_per_day (spent_today now e +ℤ intent.value) ≡ false

pub maybe_reset_daily-policy :
    (now : ℕ) (e : PolicyEnforcer) → (maybe_reset_daily now e).policy ≡ e.policy
unfolding maybe_reset_daily
maybe_reset_daily-policy now e = ground arith

pub maybe_reset_daily-spent :
    (now : ℕ) (e : PolicyEnforcer) → (maybe_reset_daily now e).daily_spent ≡ spent_today now e
unfolding maybe_reset_daily
maybe_reset_daily-spent now e = ground arith

validate-Passes :
    (now : ℕ) (intent : TransactionIntent) (e : PolicyEnforcer)
    → (validate now intent e).0.allowed ≡ true
    → Passes now intent e
unfolding validate
validate-Passes now intent e h =
    ground (arith, maybe_reset_daily-policy now e, maybe_reset_daily-spent now e)

Passes-validate :
    (now : ℕ) (intent : TransactionIntent) (e : PolicyEnforcer)
    → Passes now intent e
    → validate now intent e ≡ (accept, maybe_reset_daily now e)
unfolding validate
Passes-validate now intent e p =
    ground (arith, maybe_reset_daily-policy now e, maybe_reset_daily-spent now e)

pub blocked_iff :
    (e : PolicyEnforcer) (a : Address)
    → (is_address_blocked e a ≡ true) ↔ Lists e.policy.blocked_addresses a
unfolding is_address_blocked
blocked_iff e a = any_folded_iff e.policy.blocked_addresses a

pub allowed_iff :
    (e : PolicyEnforcer) (a : Address)
    → (is_address_allowed e a ≡ true) ↔ Admits e.policy.allowed_addresses a
unfolding is_address_allowed
allowed_iff e a = admits_iff e.policy.allowed_addresses a

pub selector_iff :
    (e : PolicyEnforcer) (s : Hex)
    → (is_selector_allowed e s ≡ true) ↔ Admits e.policy.allowed_selectors s
unfolding is_selector_allowed
selector_iff e s = admits_iff e.policy.allowed_selectors s

pub false_of_not : {P : Type 0} (b : Bool) → ((b ≡ true) ↔ P) → ¬ P → b ≡ false
false_of_not true h n = absurd (n (h.0 refl))
false_of_not false h n = refl

pub not_of_false : {P : Type 0} (b : Bool) → ((b ≡ true) ↔ P) → b ≡ false → ¬ P
not_of_false b h e p = cc (h.1 p)

Passes-IsPermitted :
    {now : ℕ} {intent : TransactionIntent} {e : PolicyEnforcer}
    → Passes now intent e
    → IsPermitted now intent e
unfolding is_session_expired
Passes-IsPermitted {now} {intent} {e} p = record {
  active = ground (arith, p.active);
  deploys = λ h. ground (arith, p.deploys);
  not_blocked = λ a h. not_of_false _ (blocked_iff e a) (ground (arith, p.not_blocked));
  listed = λ a h. (allowed_iff e a).0 (ground (arith, p.listed));
  selector = λ d h long. (selector_iff e (selector_of d)).0 (ground (arith, p.selector));
  within_transaction = ground (arith, p.within_transaction);
  within_day = ltb_ℤ_false e.policy.max_per_day (spent_today now e +ℤ intent.value) p.within_day;
}

-- `x && test(x)` fails when the test fails at the value that there is.
pub given-false {ℓ} :
    {A : Type ℓ} (o : Option A) (test : A → Bool)
    → ((a : A) → o ≡ some a → test a ≡ false)
    → given o test ≡ false
given-false none test h = refl
given-false (some a) test h = h a refl

refused_false :
    (e : PolicyEnforcer) (d : Hex)
    → (10 ≤ length d → Admits e.policy.allowed_selectors (selector_of d))
    → selector_refused e d ≡ false
refused_false e d h = elim (Bool-cases (leb 10 (length d))) [
  | inl long ↦ ground (arith, (selector_iff e (selector_of d)).1 (h (ground arith)))
  | inr short ↦ rw short
]

IsPermitted-Passes :
    {now : ℕ} {intent : TransactionIntent} {e : PolicyEnforcer}
    → IsPermitted now intent e
    → Passes now intent e
unfolding is_session_expired
IsPermitted-Passes {now} {intent} {e} p = record {
  active = ground (arith, p.active);
  deploys = ground (arith, p.deploys);
  not_blocked = given-false _ _ λ a h. false_of_not _ (blocked_iff e a) (p.not_blocked a h);
  listed =
      given-false intent.to (λ a. not (is_address_allowed e a))
        λ a h. ground (arith, (allowed_iff e a).1 (p.listed a h));
  selector =
      given-false intent.calldata (selector_refused e) λ d h. refused_false e d (p.selector d h);
  within_transaction = ltb_ℤ_of_le e.policy.max_per_transaction intent.value p.within_transaction;
  within_day = ltb_ℤ_of_le e.policy.max_per_day (spent_today now e +ℤ intent.value) p.within_day;
}

-- A validation accepts exactly the intents that the policy permits: the session is active, a
-- deployment is allowed, the recipient is not blocked and the allowlist (if any) has it, the
-- selector of call data of ten characters or more is allowed, and both limits are kept.
pub validate_iff :
    (now : ℕ) (intent : TransactionIntent) (e : PolicyEnforcer)
    → ((validate now intent e).0.allowed ≡ true) ↔ IsPermitted now intent e
validate_iff now intent e = (
  λ h. Passes-IsPermitted (validate-Passes now intent e h),
  λ p. ap (λ r. r.0.allowed) (Passes-validate now intent e (IsPermitted-Passes p)),
)

-- An accepted validation leaves the enforcer as the daily reset does.
pub validate_accepted :
    (now : ℕ) (intent : TransactionIntent) (e : PolicyEnforcer)
    → (validate now intent e).0.allowed ≡ true
    → validate now intent e ≡ (accept, maybe_reset_daily now e)
validate_accepted now intent e h = Passes-validate now intent e (validate-Passes now intent e h)

-- A validation changes the enforcer by a daily reset at most.
pub validate_state :
    (now : ℕ) (intent : TransactionIntent) (e : PolicyEnforcer)
    → ((validate now intent e).1 ≡ e) ⊎ ((validate now intent e).1 ≡ maybe_reset_daily now e)
unfolding validate
validate_state now intent e = ground arith
