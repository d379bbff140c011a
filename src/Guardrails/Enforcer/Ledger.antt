-- ===== src/Guardrails/Enforcer/Ledger.antt =====
-- The enforcer as a ledger: what histories of its calls come to, with validations and recordings
-- interleaved in any way.
use reth_monmouth.Common.{
  ℕ, ◌≤◌, ◌≡◌, ◌↔◌, refl, sym, ◌∙◌, true, List, [], ◌∷◌, arith, ◌==◌, if◌then◌else◌, inl, inr,
}
use reth_monmouth.Common.Int.{ℤ, pos, ◌+ℤ◌, int_laws}
use reth_monmouth.Guardrails.Policy.{SpendingPolicy, TransactionIntent}
use reth_monmouth.Guardrails.Enforcer.{
  PolicyEnforcer, current_day, maybe_reset_daily, validate, record_spend, get_remaining_daily,
  get_daily_spent, update_policy,
}
use reth_monmouth.Guardrails.Enforcer.Permission.{
  IsPermitted, spent_today, validate_iff, validate_state, maybe_reset_daily-policy,
  maybe_reset_daily-spent,
}

-- The calls that change an enforcer.
pub data Call : Type 0 where
  validates : TransactionIntent → Call
  records : ℤ → Call
  asks_remaining asks_spent : Call
  sets_policy : SpendingPolicy → Call

unfoldable pub step : ℕ × Call → PolicyEnforcer → PolicyEnforcer
step (now, validates intent) e = (validate now intent e).1
step (now, records value) e = record_spend now value e
step (now, asks_remaining) e = (get_remaining_daily now e).1
step (now, asks_spent) e = (get_daily_spent now e).1
step (now, sets_policy policy) e = update_policy policy e

unfoldable pub run : List (ℕ × Call) → PolicyEnforcer → PolicyEnforcer
unfolding step
run [] e = e
run (c ∷ cs) e = run cs (step c e)

-- The value that a call records on a day.
abbrev pub recorded_by : ℕ → ℕ × Call → ℤ
recorded_by d (now, records value) = if d == current_day now then value else pos 0
recorded_by d (now, _) = pos 0

-- The sum of what a history records on a day.
abbrev pub recorded_on : ℕ → List (ℕ × Call) → ℤ
recorded_on d [] = pos 0
recorded_on d (c ∷ cs) = recorded_by d c +ℤ recorded_on d cs

abbrev pub policy_by : Call → SpendingPolicy → SpendingPolicy
policy_by (sets_policy new) old = new
policy_by _ old = old

-- The policy that was set last.
abbrev pub policy_after : List (ℕ × Call) → SpendingPolicy → SpendingPolicy
policy_after [] policy = policy
policy_after ((now, call) ∷ cs) policy = policy_after cs (policy_by call policy)

-- The clock does not go back, starts no earlier than on the given day, and ends at `now`.
abbrev pub InOrder : ℕ → List (ℕ × Call) → ℕ → Type 0
InOrder day [] now = day ≤ current_day now
InOrder day ((at, call) ∷ cs) now = (day ≤ current_day at) × InOrder (current_day at) cs now

-- What an enforcer holds already against a day.
abbrev pub carried : ℕ → PolicyEnforcer → ℤ
carried d e = if d == e.last_spend_day then e.daily_spent else pos 0

-- What a ledger of a history knows at `now`: the policy in force and the sum of the day.
abbrev pub ledger : ℕ → List (ℕ × Call) → PolicyEnforcer → PolicyEnforcer
ledger now cs e = record {
  policy = policy_after cs e.policy;
  daily_spent = recorded_on (current_day now) cs +ℤ carried (current_day now) e;
  last_spend_day = current_day now;
}

InOrder-le : (day : ℕ) (cs : List (ℕ × Call)) (now : ℕ) → InOrder day cs now → day ≤ current_day now
InOrder-le day [] now h = h
InOrder-le day ((at, call) ∷ cs) now (le, later) =
    omega (arith, le, InOrder-le (current_day at) cs now later)

InOrder-mono :
    (a b : ℕ) (cs : List (ℕ × Call)) (now : ℕ) → a ≤ b → InOrder b cs now → InOrder a cs now
InOrder-mono a b [] now h k = omega arith
InOrder-mono a b ((at, call) ∷ cs) now h (le, later) = (omega arith, later)

-- What a call at a time does to what is held against a later day.
record Entered (d now : ℕ) (value : ℤ) (e e' : PolicyEnforcer) : Type 0 where
  entry : carried d e' ≡ value +ℤ carried d e
  no_later : e'.last_spend_day ≤ current_day now

Entered-reset :
    (d now : ℕ) (e : PolicyEnforcer)
    → e.last_spend_day ≤ current_day now
    → current_day now ≤ d
    → Entered d now (pos 0) e (maybe_reset_daily now e)
unfolding maybe_reset_daily
Entered-reset d now e h k = grind int_laws

Entered-none :
    (d now : ℕ) (e : PolicyEnforcer)
    → e.last_spend_day ≤ current_day now
    → Entered d now (pos 0) e e
Entered-none d now e h = grind int_laws

Entered-record :
    (d now : ℕ) (value : ℤ) (e : PolicyEnforcer)
    → e.last_spend_day ≤ current_day now
    → current_day now ≤ d
    → Entered d now (if d == current_day now then value else pos 0) e (record_spend now value e)
unfolding record_spend maybe_reset_daily
Entered-record d now value e h k = grind int_laws

validate-Entered :
    (d now : ℕ) (intent : TransactionIntent) (e : PolicyEnforcer)
    → e.last_spend_day ≤ current_day now
    → current_day now ≤ d
    → Entered d now (pos 0) e (validate now intent e).1
validate-Entered d now intent e h k = elim (validate_state now intent e) [
  | inl same ↦ rw same (Entered-none d now e h)
  | inr reset ↦ rw reset (Entered-reset d now e h k)
]

step-Entered :
    (d : ℕ) (c : ℕ × Call) (e : PolicyEnforcer)
    → e.last_spend_day ≤ current_day c.0
    → current_day c.0 ≤ d
    → Entered d c.0 (recorded_by d c) e (step c e)
unfolding step get_remaining_daily get_daily_spent update_policy
step-Entered d (now, validates intent) e h k = validate-Entered d now intent e h k
step-Entered d (now, records value) e h k = Entered-record d now value e h k
step-Entered d (now, asks_remaining) e h k = Entered-reset d now e h k
step-Entered d (now, asks_spent) e h k = Entered-reset d now e h k
step-Entered d (now, sets_policy policy) e h k =
    let same = Entered-none d now e h in record { entry = same.entry; no_later = same.no_later }

policy-step : (c : ℕ × Call) (e : PolicyEnforcer) → (step c e).policy ≡ policy_by c.1 e.policy
unfolding step record_spend get_remaining_daily get_daily_spent update_policy
policy-step (now, validates intent) e =
    ground (arith, validate_state now intent e, maybe_reset_daily-policy now e)
policy-step (now, records value) e = maybe_reset_daily-policy now e
policy-step (now, asks_remaining) e = maybe_reset_daily-policy now e
policy-step (now, asks_spent) e = maybe_reset_daily-policy now e
policy-step (now, sets_policy policy) e = refl

policy-run :
    (cs : List (ℕ × Call)) (e : PolicyEnforcer) → (run cs e).policy ≡ policy_after cs e.policy
unfolding run
policy-run [] e = refl
policy-run (c ∷ cs) e = rw (policy-run cs (step c e), policy-step c e) refl

run-spent_today :
    (now : ℕ) (cs : List (ℕ × Call)) (e : PolicyEnforcer)
    → InOrder e.last_spend_day cs now
    → spent_today now (run cs e) ≡ recorded_on (current_day now) cs +ℤ carried (current_day now) e
unfolding run
run-spent_today now [] e h = grind int_laws
run-spent_today now ((at, call) ∷ cs) e (le, later) =
    let c : ℕ × Call = (at, call) in
    let entered =
      step-Entered (current_day now) c e le (InOrder-le (current_day at) cs now later) in
    let rest = run-spent_today now cs (step c e) (InOrder-mono _ _ cs now entered.no_later later) in
    grind (int_laws, rest, entered.entry)

spent_today-ledger :
    (now : ℕ) (cs : List (ℕ × Call)) (e : PolicyEnforcer)
    → spent_today now (ledger now cs e) ≡ (ledger now cs e).daily_spent
spent_today-ledger now cs e = ground arith

-- What is permitted depends on the policy and on the day's sum only.
IsPermitted-same :
    (now : ℕ) (intent : TransactionIntent) (e e' : PolicyEnforcer)
    → e.policy ≡ e'.policy
    → spent_today now e ≡ spent_today now e'
    → IsPermitted now intent e
    → IsPermitted now intent e'
IsPermitted-same now intent e e' policy spent p = record {
  active = rw (← policy) p.active;
  deploys = rw (← policy) p.deploys;
  not_blocked = rw (← policy) p.not_blocked;
  listed = rw (← policy) p.listed;
  selector = rw (← policy) p.selector;
  within_transaction = rw (← policy) p.within_transaction;
  within_day = rw (← spent, ← policy) p.within_day;
}

-- After any history of validations, recordings, queries and changes of the policy, in any order, under
-- a clock that does not go back: what the enforcer counts for the present day is the sum of what was
-- recorded on it, with what the enforcer held against the day at the start; and the enforcer accepts
-- exactly the intents that the policy which was set last permits with that sum. So an accepted value
-- fits the daily limit together with all that has been recorded; what was only validated is not counted.
pub validate-run_iff :
    (now : ℕ) (cs : List (ℕ × Call)) (e : PolicyEnforcer) (intent : TransactionIntent)
    → InOrder e.last_spend_day cs now
    → ((get_daily_spent now (run cs e)).0
        ≡ recorded_on (current_day now) cs +ℤ carried (current_day now) e)
      × (((validate now intent (run cs e)).0.allowed ≡ true)
          ↔ IsPermitted now intent (ledger now cs e))
unfolding get_daily_spent
validate-run_iff now cs e intent h =
    let spent = run-spent_today now cs e h in
    let same = policy-run cs e in
    let sum = spent_today-ledger now cs e in
    let (to, back) = validate_iff now intent (run cs e) in
    (
      maybe_reset_daily-spent now (run cs e) ∙ spent,
      (
        λ a. IsPermitted-same now intent (run cs e) (ledger now cs e) same (spent ∙ sym sum) (to a),
        λ p. back (
            IsPermitted-same now intent (ledger now cs e) (run cs e) (sym same) (sum ∙ sym spent)
              p),
      ),
    )
