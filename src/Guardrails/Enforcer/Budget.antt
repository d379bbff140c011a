-- ===== src/Guardrails/Enforcer/Budget.antt =====
-- The daily budget of a caller that validates an intent and, if it is allowed, records its value at
-- once. X402Client and PaymentRouter wait for an answer in between, and X402Client may record another
-- value than it validates: Ledger has the histories with the two calls apart.
use reth_monmouth.Common.{
  ℕ, ◌≤◌, ◌<◌, ◌≡◌, refl, Bool, true, false, List, [], ◌∷◌, arith, ◌==◌, if◌then◌else◌, Bool-cases,
  inl, inr,
}
use reth_monmouth.Common.Int.{ℤ, pos, ◌+ℤ◌, ◌≤ℤ◌, int_laws}
use reth_monmouth.Guardrails.Policy.{TransactionIntent}
use reth_monmouth.Guardrails.Enforcer.{
  PolicyEnforcer, current_day, maybe_reset_daily, validate, record_spend,
}
use reth_monmouth.Guardrails.Enforcer.Permission.{
  spent_today, validate_iff, maybe_reset_daily-policy, maybe_reset_daily-spent, validate_accepted,
  validate_state,
}

-- Validate, and record what was allowed at the same instant.
unfoldable pub attempt : ℕ → TransactionIntent → PolicyEnforcer → Bool × PolicyEnforcer
attempt now intent e =
    let (result, e') = validate now intent e in
    if result.allowed then (true, record_spend now intent.value e') else (false, e')

-- The accepted spends of a history of attempts, each with its day.
unfoldable pub accepted : List (ℕ × TransactionIntent) → PolicyEnforcer → List (ℕ × ℤ)
unfolding attempt
accepted [] e = []
accepted ((now, intent) ∷ ops) e =
    let (done, e') = attempt now intent e in
    let rest = accepted ops e' in if done then (current_day now, intent.value) ∷ rest else rest

-- What was spent on a day.
abbrev pub spent_on : ℕ → List (ℕ × ℤ) → ℤ
spent_on d [] = pos 0
spent_on d ((day, value) ∷ spends) =
    let rest = spent_on d spends in if d == day then value +ℤ rest else rest

-- The clock does not go back, and does not start before the enforcer's day.
abbrev pub InOrder : ℕ → List (ℕ × TransactionIntent) → Type 0
InOrder day [] = Unit
InOrder day ((now, intent) ∷ ops) = (day ≤ current_day now) × InOrder (current_day now) ops

-- What the enforcer holds already against a day.
abbrev carried : ℕ → PolicyEnforcer → ℤ
carried d e = if d == e.last_spend_day then e.daily_spent else pos 0

-- The enforcer after an accepted spend.
abbrev spending : ℕ → ℤ → PolicyEnforcer → PolicyEnforcer
spending now value e = record {
  policy = e.policy;
  daily_spent = spent_today now e +ℤ value;
  last_spend_day = (maybe_reset_daily now e).last_spend_day;
}

record_spend_after_reset :
    (now : ℕ) (value : ℤ) (e : PolicyEnforcer)
    → record_spend now value (maybe_reset_daily now e) ≡ spending now value e
unfolding record_spend
record_spend_after_reset now value e = ground arith

-- How an attempt ends: refused, with at most a daily reset; or recorded within the limit.
data Attempted (now : ℕ) (value : ℤ) (e : PolicyEnforcer) : Bool × PolicyEnforcer → Type 0 where
  unchanged : (r : Bool × PolicyEnforcer) → r ≡ (false, e) → Attempted now value e r
  reset :
      (r : Bool × PolicyEnforcer) → r ≡ (false, maybe_reset_daily now e) → Attempted now value e r
  spent :
      (r : Bool × PolicyEnforcer)
      → r ≡ (true, spending now value e)
      → spent_today now e +ℤ value ≤ℤ e.policy.max_per_day
      → Attempted now value e r

attempt-Attempted :
    (now : ℕ) (intent : TransactionIntent) (e : PolicyEnforcer)
    → Attempted now intent.value e (attempt now intent e)
unfolding attempt
attempt-Attempted now intent e = elim (Bool-cases (validate now intent e).0.allowed) [
  | inl done ↦
      spent _
        (ground
          (arith, validate_accepted now intent e done, record_spend_after_reset now intent.value e))
        ((validate_iff now intent e).0 done).within_day
  | inr refused ↦ elim (validate_state now intent e) [
    | inl same ↦ unchanged _ (ground arith)
    | inr later ↦ reset _ (ground arith)
  ]
]

-- A day before the history is not spent on.
spent_on_past :
    (d day : ℕ) (ops : List (ℕ × TransactionIntent)) (e : PolicyEnforcer)
    → InOrder day ops
    → d < day
    → spent_on d (accepted ops e) ≡ pos 0
unfolding accepted
spent_on_past d day [] e h lt = refl
spent_on_past d day ((now, intent) ∷ ops) e (here, later) lt =
    let past =
      λ (e' : PolicyEnforcer). spent_on_past d (current_day now) ops e' later (omega arith) in
    ground (arith, past (attempt now intent e).1)

InOrder-mono :
    (a b : ℕ) (ops : List (ℕ × TransactionIntent)) → a ≤ b → InOrder b ops → InOrder a ops
InOrder-mono a b [] h k = tt
InOrder-mono a b (op ∷ ops) h (here, later) = (omega arith, later)

-- The day's spending in the rest of a history, and what is carried, keep the limit.
abbrev Keeps : ℕ → List (ℕ × TransactionIntent) → PolicyEnforcer → Type 0
Keeps d ops e =
    InOrder e.last_spend_day ops
    → pos 0 ≤ℤ e.policy.max_per_day
    → e.daily_spent ≤ℤ e.policy.max_per_day
    → spent_on d (accepted ops e) +ℤ carried d e ≤ℤ e.policy.max_per_day

abbrev then_accepted : ℕ → ℤ → List (ℕ × TransactionIntent) → Bool × PolicyEnforcer → List (ℕ × ℤ)
then_accepted now value ops r =
    let rest = accepted ops r.1 in if r.0 then (current_day now, value) ∷ rest else rest

-- The rest of the history from an enforcer whose day is that of `now`.
today_keeps :
    (d now : ℕ) (ops : List (ℕ × TransactionIntent)) (e e' : PolicyEnforcer)
    → Keeps d ops e'
    → e'.last_spend_day ≡ current_day now
    → e'.policy ≡ e.policy
    → InOrder (current_day now) ops
    → pos 0 ≤ℤ e.policy.max_per_day
    → e'.daily_spent ≤ℤ e.policy.max_per_day
    → spent_on d (accepted ops e') +ℤ (if d == current_day now then e'.daily_spent else pos 0)
      ≤ℤ e.policy.max_per_day
today_keeps d now ops e e' ih day same later zero within =
    rw (← day, ← same) (ih (rw day later) (rw same zero) (rw same within))

-- With a clock that has not gone back, the reset brings the enforcer to the day of `now`.
reset_day :
    (now : ℕ) (e : PolicyEnforcer)
    → e.last_spend_day ≤ current_day now
    → ((maybe_reset_daily now e).last_spend_day ≡ current_day now)
      × (spent_today now e ≡ carried (current_day now) e)
unfolding maybe_reset_daily
reset_day now e h = ground arith

step_keeps :
    (d now : ℕ) (value : ℤ) (ops : List (ℕ × TransactionIntent)) (e : PolicyEnforcer)
    → ((e' : PolicyEnforcer) → Keeps d ops e')
    → e.last_spend_day ≤ current_day now
    → InOrder (current_day now) ops
    → pos 0 ≤ℤ e.policy.max_per_day
    → e.daily_spent ≤ℤ e.policy.max_per_day
    → (r : Bool × PolicyEnforcer) → Attempted now value e r
    → spent_on d (then_accepted now value ops r) +ℤ carried d e ≤ℤ e.policy.max_per_day
step_keeps d now value ops e ih le later zero within r (unchanged _ eq) =
    rw eq (ih e (InOrder-mono _ _ ops le later) zero within)
step_keeps d now value ops e ih le later zero within r (reset _ eq) =
    let e' = maybe_reset_daily now e in
    let (day, carries) = reset_day now e le in
    let rest =
      today_keeps d now ops e e' (ih e') day (maybe_reset_daily-policy now e) later zero
        (ground (arith, carries, maybe_reset_daily-spent now e)) in
    rw eq (
      grind (
        int_laws,
        rest,
        carries,
        maybe_reset_daily-spent now e,
        spent_on_past d (current_day now) ops e' later,
      ))
step_keeps d now value ops e ih le later zero within r (spent _ eq fits) =
    let e' = spending now value e in
    let (day, carries) = reset_day now e le in
    let rest = today_keeps d now ops e e' (ih e') day refl later zero fits in
    rw eq (grind (int_laws, rest, carries, spent_on_past d (current_day now) ops e' later))

accepted-Keeps : (d : ℕ) (ops : List (ℕ × TransactionIntent)) (e : PolicyEnforcer) → Keeps d ops e
unfolding accepted
accepted-Keeps d [] e later zero within = grind int_laws
accepted-Keeps d ((now, intent) ∷ ops) e (le, later) zero within =
    step_keeps d now intent.value ops e (λ e'. accepted-Keeps d ops e') le later zero within
      (attempt now intent e) (attempt-Attempted now intent e)

-- If every intent that is accepted is recorded at once with its value, and nothing else is called, then
-- under a clock that does not go back the accepted values of one day add up to the daily limit at most. The limit is not negative, and what the
-- enforcer starts with is between zero and the limit.
pub spent_on-le-max_per_day :
    (d : ℕ) (ops : List (ℕ × TransactionIntent)) (e : PolicyEnforcer)
    → InOrder e.last_spend_day ops
    → pos 0 ≤ℤ e.policy.max_per_day
    → pos 0 ≤ℤ e.daily_spent
    → e.daily_spent ≤ℤ e.policy.max_per_day
    → spent_on d (accepted ops e) ≤ℤ e.policy.max_per_day
spent_on-le-max_per_day d ops e later zero old within =
    grind (int_laws, accepted-Keeps d ops e later zero within)
