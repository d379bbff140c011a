-- ===== src/AgentWallet/Permission.antt =====
-- What `AgentWallet.validateTransaction` lets through.
use reth_monmouth.Common.{
  ℕ, ◌≤◌, ◌≡◌, refl, ◌⊎◌, ◌↔◌, ap, inl, inr, sym, Bool, true, false, not, ◌&&◌, ◌==◌, Option, some,
  List, [], ◌∷◌, arith, leb, if◌then◌else◌, Some, any, any_iff, length, take, is_empty, Bool-cases,
}
use reth_monmouth.Common.Int.{ℤ, pos, ◌+ℤ◌, ◌≤ℤ◌, ltb_ℤ, ltb_ℤ_false, ltb_ℤ_of_le}
use reth_monmouth.Common.Text.{lower, same_folded_iff, starts_with}
use reth_monmouth.Guardrails.Policy.{given}
use reth_monmouth.Guardrails.Enforcer.{current_day}
use reth_monmouth.Guardrails.Enforcer.Permission.{false_of_not, not_of_false, given-false}
use reth_monmouth.AgentWallet.{
  AgentWallet, SpendingPolicy, UniversalAddress, TransactionIntent, accept, is_listed,
  is_not_allowed, selector_matches, is_selector_refused, check_rest, check_day_reset,
  is_session_expired, validate_transaction, emit, persist_state,
}

-- The list has an address that is displayed like `to`, up to the case of letters.
abbrev pub Lists : List UniversalAddress → UniversalAddress → Type 0
Lists addresses to = Some (λ a. lower a.display ≡ lower to.display) addresses

-- What has been spent on the day of `now`.
abbrev pub spent_today : ℕ → AgentWallet → ℤ
spent_today now w = if current_day now == w.last_spend_day then w.daily_spent else pos 0

-- An intent that the wallet's policy permits at the time `now`.
pub record IsPermitted (now : ℕ) (intent : TransactionIntent) (w : AgentWallet) : Type 0 where
  pub active : now ≤ w.policy.session_expiry
  pub deploys : intent.is_contract_deploy ≡ true → w.policy.can_deploy_contracts ≡ true
  pub within_transaction : intent.value ≤ℤ w.policy.max_per_transaction
  pub within_day : spent_today now w +ℤ intent.value ≤ℤ w.policy.max_per_day
  pub not_blocked :
      (a : UniversalAddress) → intent.to ≡ some a → ¬ Lists w.policy.blocked_addresses a
  pub listed :
      (a : UniversalAddress)
      → intent.to ≡ some a
      → (w.policy.allowed_addresses ≡ []) ⊎ Lists w.policy.allowed_addresses a
  pub selector :
      (d : List ℕ)
      → intent.calldata ≡ some d
      → 4 ≤ length d
      → (w.policy.allowed_selectors ≡ []) ⊎ Some (λ s. s ≡ take 4 d) w.policy.allowed_selectors

listed_iff :
    (addresses : List UniversalAddress) (to : UniversalAddress)
    → (is_listed addresses to ≡ true) ↔ Lists addresses to
unfolding is_listed
listed_iff addresses to = any_iff _ (λ a. same_folded_iff a.display to.display) addresses

-- A prefix that is not shorter is the whole.
whole_prefix : (s t : List ℕ) → starts_with s t ≡ true → length t ≤ length s → s ≡ t
unfolding starts_with
whole_prefix [] [] h k = refl
whole_prefix [] (b ∷ t) h k = absurd (omega (arith, k))
whole_prefix (a ∷ s) [] h k = cc
whole_prefix (a ∷ s) (b ∷ t) h k = ground (arith, whole_prefix s t)

prefix_self : (s : List ℕ) → starts_with s s ≡ true
unfolding starts_with
prefix_self [] = refl
prefix_self (a ∷ s) = ground (arith, prefix_self s)

length-take_four : (d : List ℕ) → 4 ≤ length d → length (take 4 d) ≡ 4
length-take_four (a ∷ b ∷ c ∷ e ∷ d) h = refl
length-take_four [] h = absurd (omega (arith, h))
length-take_four (a ∷ []) h = absurd (omega (arith, h))
length-take_four (a ∷ b ∷ []) h = absurd (omega (arith, h))
length-take_four (a ∷ b ∷ c ∷ []) h = absurd (omega (arith, h))

selector_matches_iff :
    (selector s : List ℕ)
    → length selector ≡ 4
    → (selector_matches selector s ≡ true) ↔ (s ≡ selector)
selector_matches_iff selector s four =
    (λ h. ground (arith, whole_prefix s selector), λ e. ground (arith, prefix_self selector))

selector_iff :
    (selectors : List (List ℕ)) (d : List ℕ)
    → 4 ≤ length d
    → (any (selector_matches (take 4 d)) selectors ≡ true) ↔ Some (λ s. s ≡ take 4 d) selectors
selector_iff selectors d long =
    any_iff _ (λ s. selector_matches_iff (take 4 d) s (length-take_four d long)) selectors

-- The tests of `validateTransaction`, each as it must come out.
record Passes (now : ℕ) (intent : TransactionIntent) (w : AgentWallet) : Type 0 where
  active : is_session_expired now w ≡ false
  deploys : intent.is_contract_deploy && not w.policy.can_deploy_contracts ≡ false
  within_transaction : ltb_ℤ w.policy.max_per_transaction intent.value ≡ false
  within_day : ltb_ℤ w.policy.max_per_day (spent_today now w +ℤ intent.value) ≡ false
  not_blocked : given intent.to (is_listed w.policy.blocked_addresses) ≡ false
  listed : given intent.to (is_not_allowed w.policy) ≡ false
  selector : given intent.calldata (is_selector_refused w.policy) ≡ false

pub check_day_reset-policy : (now : ℕ) (w : AgentWallet) → (check_day_reset now w).policy ≡ w.policy
unfolding check_day_reset emit persist_state
check_day_reset-policy now w = ground arith

pub check_day_reset-spent :
    (now : ℕ) (w : AgentWallet) → (check_day_reset now w).daily_spent ≡ spent_today now w
unfolding check_day_reset emit persist_state
check_day_reset-spent now w = ground arith

validate_transaction-Passes :
    (now : ℕ) (intent : TransactionIntent) (w : AgentWallet)
    → (validate_transaction now intent w).0.allowed ≡ true
    → Passes now intent w
unfolding validate_transaction check_rest
validate_transaction-Passes now intent w h =
    ground (arith, check_day_reset-policy now w, check_day_reset-spent now w)

Passes-validate_transaction :
    (now : ℕ) (intent : TransactionIntent) (w : AgentWallet)
    → Passes now intent w
    → validate_transaction now intent w ≡ (accept, check_day_reset now w)
unfolding validate_transaction check_rest
Passes-validate_transaction now intent w p =
    ground (arith, check_day_reset-policy now w, check_day_reset-spent now w)

-- A test of an allowlist is passed by a list that is empty or has the value.
unrestricted {ℓ} :
    {A : Type ℓ} {P : Type 0} (entries : List A) (b : Bool)
    → ((b ≡ true) ↔ P)
    → (not (is_empty entries) && not b ≡ false) ↔ ((entries ≡ []) ⊎ P)
unrestricted [] b h = (λ e. inl refl, λ p. refl)
unrestricted (x ∷ xs) true h = (λ e. inr (h.0 refl), λ p. refl)
unrestricted {P = P} (x ∷ xs) false h = (λ e. cc, back)
  where
    back : (x ∷ xs ≡ []) ⊎ P → true ≡ false
    back (inl e) = cc
    back (inr p) = sym (h.1 p)

refused_iff :
    (p : SpendingPolicy) (d : List ℕ)
    → 4 ≤ length d
    → (is_selector_refused p d ≡ false)
      ↔ ((p.allowed_selectors ≡ []) ⊎ Some (λ s. s ≡ take 4 d) p.allowed_selectors)
unfolding is_selector_refused
refused_iff p d long =
    let entries = unrestricted p.allowed_selectors _ (selector_iff p.allowed_selectors d long) in
    (λ h. entries.0 (ground (arith, h)), λ h. ground (arith, entries.1 h))

not_refused :
    (p : SpendingPolicy) (d : List ℕ)
    → (4 ≤ length d → (p.allowed_selectors ≡ []) ⊎ Some (λ s. s ≡ take 4 d) p.allowed_selectors)
    → is_selector_refused p d ≡ false
unfolding is_selector_refused
not_refused p d h = elim (Bool-cases (leb 4 (length d))) [
  | inl long ↦ (refused_iff p d (ground arith)).1 (h (ground arith))
  | inr short ↦ rw short
]

not_allowed_iff :
    (p : SpendingPolicy) (a : UniversalAddress)
    → (is_not_allowed p a ≡ false) ↔ ((p.allowed_addresses ≡ []) ⊎ Lists p.allowed_addresses a)
not_allowed_iff p a =
    unrestricted p.allowed_addresses (is_listed p.allowed_addresses a)
      (listed_iff p.allowed_addresses a)

given_at {ℓ} :
    {A : Type ℓ} (o : Option A) (test : A → Bool) (a : A)
    → given o test ≡ false
    → o ≡ some a
    → test a ≡ false
given_at o test a h e = rw e at h

Passes-IsPermitted :
    {now : ℕ} {intent : TransactionIntent} {w : AgentWallet}
    → Passes now intent w
    → IsPermitted now intent w
unfolding is_session_expired
Passes-IsPermitted {now} {intent} {w} p = record {
  active = ground (arith, p.active);
  deploys = λ h. ground (arith, p.deploys);
  within_transaction = ground (arith, p.within_transaction);
  within_day = ltb_ℤ_false w.policy.max_per_day (spent_today now w +ℤ intent.value) p.within_day;
  not_blocked = λ a h.
      not_of_false _ (listed_iff w.policy.blocked_addresses a) (given_at _ _ a p.not_blocked h);
  listed = λ a h. (not_allowed_iff w.policy a).0 (given_at _ _ a p.listed h);
  selector = λ d h long. (refused_iff w.policy d long).0 (given_at _ _ d p.selector h);
}

IsPermitted-Passes :
    {now : ℕ} {intent : TransactionIntent} {w : AgentWallet}
    → IsPermitted now intent w
    → Passes now intent w
unfolding is_session_expired
IsPermitted-Passes {now} {intent} {w} p = record {
  active = ground (arith, p.active);
  deploys = ground (arith, p.deploys);
  within_transaction = ltb_ℤ_of_le w.policy.max_per_transaction intent.value p.within_transaction;
  within_day = ltb_ℤ_of_le w.policy.max_per_day (spent_today now w +ℤ intent.value) p.within_day;
  not_blocked =
      given-false _ _
        λ a h. false_of_not _ (listed_iff w.policy.blocked_addresses a) (p.not_blocked a h);
  listed = given-false _ _ λ a h. (not_allowed_iff w.policy a).1 (p.listed a h);
  selector = given-false _ _ λ d h. not_refused w.policy d (p.selector d h);
}

-- A validation accepts exactly the intents that the policy permits: the session has not passed its
-- expiry, a deployment is allowed, both limits are kept, the recipient is not blocked and the
-- allowlist (if any) has it, and the first four bytes of call data of four bytes or more are one of
-- the allowed selectors (if any).
pub validate_transaction_iff :
    (now : ℕ) (intent : TransactionIntent) (w : AgentWallet)
    → ((validate_transaction now intent w).0.allowed ≡ true) ↔ IsPermitted now intent w
validate_transaction_iff now intent w = (
  λ h. Passes-IsPermitted (validate_transaction-Passes now intent w h),
  λ p. ap (λ r. r.0.allowed) (Passes-validate_transaction now intent w (IsPermitted-Passes p)),
)

-- An accepted validation leaves the wallet as the daily reset does.
pub validate_transaction_accepted :
    (now : ℕ) (intent : TransactionIntent) (w : AgentWallet)
    → (validate_transaction now intent w).0.allowed ≡ true
    → validate_transaction now intent w ≡ (accept, check_day_reset now w)
validate_transaction_accepted now intent w h =
    Passes-validate_transaction now intent w (validate_transaction-Passes now intent w h)
