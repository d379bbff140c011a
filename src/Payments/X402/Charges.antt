-- ===== src/Payments/X402/Charges.antt =====
-- What a `fetch` charges, what it asks before it pays, and what it does not ask.
use reth_monmouth.Common.{
  ℕ, ◌≤◌, ◌≡◌, refl, ap, ◌∙◌, ◌⊎◌, inl, inr, Bool, true, false, not, Option, none, some, arith,
  if◌then◌else◌, Bool-cases,
}
use reth_monmouth.Common.Int.{ℤ, pos, ◌+ℤ◌, int_laws}
use reth_monmouth.Common.Text.{Text}
use reth_monmouth.Guardrails.Policy.{Hex}
use reth_monmouth.Guardrails.Enforcer.{PolicyEnforcer, current_day, record_spend}
use reth_monmouth.Guardrails.Enforcer.Permission.{spent_today}
use reth_monmouth.Guardrails.Enforcer.Recorded.{
  spent_today-validate, spent_today-record_spend, validate-policy,
}
use reth_monmouth.Wallet.{validate_transaction, record_transaction}
use reth_monmouth.Memory.Entry.{ActivityActionType}
use reth_monmouth.Payments.Types.{PaymentRequired, PaymentPayload, X402ErrorCode}
use reth_monmouth.Payments.X402.{
  X402Client, X402Log, Surroundings, FetchResult, Prepared, Signing, log_activity, payment_intent,
  validate_payment, is_past, create_payment, is_disapproved, prepare_payment, record_payment,
  refusal, SecondAnswer, FirstAnswer, conclude, send_payment, simulate_payment, answer_first,
  is_demo_url, answer_request, handle_demo_url, fetch_with_payment_info,
  generate_demo_payment_required,
}

-- The day of a call: it is asked, prepared and recorded on one.
pub record SameDay (day : ℕ) (s : Surroundings) : Type 0 where
  pub asked : current_day s.asked_at ≡ day
  pub created : current_day s.created_at ≡ day
  pub recorded : current_day s.recorded_at ≡ day

-- The client after a step has the same spending at a time, and the same policy.
pub record Unspent (now : ℕ) (c c' : X402Client) : Type 0 where
  pub spent : spent_today now c'.wallet.enforcer ≡ spent_today now c.wallet.enforcer
  pub policy : c'.wallet.enforcer.policy ≡ c.wallet.enforcer.policy
  pub address : c'.wallet.connected_address ≡ c.wallet.connected_address

pub Unspent-self : (now : ℕ) (c : X402Client) → Unspent now c c
Unspent-self now c = record { spent = refl; policy = refl; address = refl }

pub Unspent-trans :
    {now : ℕ} {a b c : X402Client} → Unspent now a b → Unspent now b c → Unspent now a c
Unspent-trans h k = record {
  spent = k.spent ∙ h.spent;
  policy = k.policy ∙ h.policy;
  address = k.address ∙ h.address;
}

pub log_activity-Unspent :
    (now at : ℕ) (a : ActivityActionType) (p : X402Log) (c : X402Client)
    → Unspent now c (log_activity at a p c)
unfolding log_activity
log_activity-Unspent now at a p c = record { spent = refl; policy = refl; address = refl }

pub validate_payment-Unspent :
    (at now : ℕ) (required : PaymentRequired) (c : X402Client)
    → current_day at ≤ current_day now
    → Unspent now c (validate_payment at required c).1
unfolding validate_payment validate_transaction
validate_payment-Unspent at now required c h = record {
  spent = spent_today-validate at now (payment_intent required) c.wallet.enforcer h;
  policy = validate-policy at (payment_intent required) c.wallet.enforcer;
  address = refl;
}

create_payment_state :
    (at : ℕ) (required : PaymentRequired) (signing : Signing) (c : X402Client)
    → ((create_payment at required signing c).1 ≡ c)
      ⊎ ((create_payment at required signing c).1 ≡ (validate_payment at required c).1)
unfolding create_payment
create_payment_state at required signing c = ground arith

-- A payment is made only with the guardrails' leave, before its expiry and for a connected payer.
pub create_payment_made :
    (at : ℕ) (required : PaymentRequired) (signing : Signing) (c : X402Client)
    (payload : PaymentPayload)
    → (create_payment at required signing c).0 ≡ Prepared.payment payload
    → (is_past at required ≡ false)
      × (c.wallet.connected_address ≡ some payload.payer)
      × ((validate_payment at required c).0.allowed ≡ true)
      × (payload.required ≡ required)
unfolding create_payment
create_payment_made at required signing c payload made = ground arith

create_payment-Unspent :
    (at now : ℕ) (required : PaymentRequired) (signing : Signing) (c : X402Client)
    → current_day at ≤ current_day now
    → Unspent now c (create_payment at required signing c).1
create_payment-Unspent at now required signing c h =
    elim (create_payment_state at required signing c) [
      | inl same ↦ rw same (Unspent-self now c)
      | inr same ↦ rw same (validate_payment-Unspent at now required c h)
    ]

pub prepare_payment-Unspent :
    (demo : Bool) (url : Text) (s : Surroundings) (required : PaymentRequired) (c : X402Client)
    (now : ℕ)
    → SameDay (current_day now) s
    → Unspent now c (prepare_payment demo url s required c).1
unfolding prepare_payment
prepare_payment-Unspent demo url s required c now days =
    let c' = (validate_payment s.asked_at required c).1 in
    let first = validate_payment-Unspent s.asked_at now required c (omega (arith, days.asked)) in
    let second =
      create_payment-Unspent s.created_at now required s.signing c' (omega (arith, days.created)) in
    elim (Bool-cases (validate_payment s.asked_at required c).0.allowed) [
      | inl allowed ↦ elim (Bool-cases (is_disapproved s required c')) [
        | inl stopped ↦ rw (allowed, stopped) first
        | inr passed ↦ rw (allowed, passed) (Unspent-trans first second)
      ]
      | inr stopped ↦ rw stopped (Unspent-trans first (log_activity-Unspent now s.asked_at _ _ c'))
    ]

pub plus_zero : (a : ℤ) → a +ℤ pos 0 ≡ a
plus_zero a = grind int_laws

-- What a call charges, by how it ends.
abbrev pub charged : FetchResult → ℤ
charged (FetchResult.paid payload receipt) = receipt.amount
charged _ = pos 0

-- The call has charged what its result says.
abbrev pub Charged : ℕ → X402Client → FetchResult × X402Client → Type 0
Charged now c r =
    spent_today now r.1.wallet.enforcer ≡ spent_today now c.wallet.enforcer +ℤ charged r.0

Charged-after :
    (now : ℕ) (a b : X402Client) (r : FetchResult × X402Client)
    → Unspent now a b
    → Charged now b r
    → Charged now a r
Charged-after now a b r same h = h ∙ ap (λ x. x +ℤ charged r.0) same.spent

uncharged :
    (now : ℕ) (c c' : X402Client) (r : FetchResult)
    → charged r ≡ pos 0
    → Unspent now c c'
    → Charged now c (r, c')
uncharged now c c' r zero same =
    ground (arith, same.spent, plus_zero (spent_today now c.wallet.enforcer))

charged-refusal : (error : Option X402ErrorCode) → charged (refusal error) ≡ pos 0
charged-refusal none = refl
charged-refusal (some code) = refl

pub spent_later :
    (at now : ℕ) (value : ℤ) (e : PolicyEnforcer)
    → current_day at ≡ current_day now
    → spent_today now (record_spend at value e) ≡ spent_today now e +ℤ value
unfolding record_spend
spent_later at now value e same = ground (arith, spent_today-record_spend now value e)

record_payment-Charged :
    (demo : Bool) (url : Text) (at now : ℕ) (hash : Hex) (payload : PaymentPayload) (c : X402Client)
    → current_day at ≡ current_day now
    → Charged now c (record_payment demo url at hash payload c)
unfolding record_payment log_activity record_transaction
record_payment-Charged demo url at now hash payload c same =
    spent_later at now payload.required.amount c.wallet.enforcer same

conclude-Charged :
    (url : Text) (at now : ℕ) (payload : PaymentPayload) (second : SecondAnswer) (c : X402Client)
    → current_day at ≡ current_day now
    → Charged now c (conclude url at payload second c)
unfolding conclude
conclude-Charged url at now payload SecondAnswer.serves c same =
    record_payment-Charged false url at now _ payload c same
conclude-Charged url at now payload SecondAnswer.asks_again c same =
    uncharged now c c (FetchResult.thrown X402ErrorCode.payment_rejected) refl (Unspent-self now c)
conclude-Charged url at now payload SecondAnswer.second_timed_out c same =
    uncharged now c c (FetchResult.thrown X402ErrorCode.timeout) refl (Unspent-self now c)
conclude-Charged url at now payload SecondAnswer.no_second_answer c same =
    uncharged now c c FetchResult.failed refl (Unspent-self now c)

send_payment-Charged :
    (url : Text) (s : Surroundings) (now : ℕ) (p : Prepared × X402Client)
    → SameDay (current_day now) s
    → Charged now p.1 (send_payment url s p)
unfolding send_payment
send_payment-Charged url s now (Prepared.refused error, c) days =
    uncharged now c c (refusal error) (charged-refusal error) (Unspent-self now c)
send_payment-Charged url s now (Prepared.payment payload, c) days =
    conclude-Charged url s.recorded_at now payload s.second c days.recorded

simulate_payment-Charged :
    (url : Text) (s : Surroundings) (now : ℕ) (p : Prepared × X402Client)
    → SameDay (current_day now) s
    → Charged now p.1 (simulate_payment url s p)
unfolding simulate_payment
simulate_payment-Charged url s now (Prepared.refused error, c) days =
    uncharged now c c (refusal error) (charged-refusal error) (Unspent-self now c)
simulate_payment-Charged url s now (Prepared.payment payload, c) days =
    record_payment-Charged true url s.recorded_at now _ payload c days.recorded

if-Charged :
    (now : ℕ) (c : X402Client) (b : Bool) (x y : FetchResult × X402Client)
    → Charged now c x
    → Charged now c y
    → Charged now c (if b then x else y)
if-Charged now c true x y h k = h
if-Charged now c false x y h k = k

answer_request-Charged :
    (url : Text) (s : Surroundings) (now : ℕ) (required : PaymentRequired) (c : X402Client)
    → SameDay (current_day now) s
    → Charged now c (answer_request url s required c)
unfolding answer_request
answer_request-Charged url s now required c days =
    let logged =
      log_activity s.asked_at ActivityActionType.decision
        (X402Log.payment_required url required false) c in
    let p = prepare_payment false url s required logged in
    if-Charged now c (not c.auto_retry) (FetchResult.unpaid, logged) (send_payment url s p)
      (uncharged now c logged FetchResult.unpaid refl (log_activity-Unspent now s.asked_at _ _ c))
      (Charged-after now c p.1 (send_payment url s p)
        (Unspent-trans (log_activity-Unspent now s.asked_at _ _ c)
          (prepare_payment-Unspent false url s required logged now days))
        (send_payment-Charged url s now p days))

handle_demo_url-Charged :
    (url : Text) (s : Surroundings) (now : ℕ) (c : X402Client)
    → SameDay (current_day now) s
    → Charged now c (handle_demo_url url s c)
unfolding handle_demo_url
handle_demo_url-Charged url s now c days =
    let required = generate_demo_payment_required url 911_867 s.asked_at s.demo_nonce in
    let logged =
      log_activity s.asked_at ActivityActionType.decision
        (X402Log.payment_required url required true) c in
    let p = prepare_payment true url s required logged in
    if-Charged now c (not c.auto_retry) (FetchResult.unpaid, logged) (simulate_payment url s p)
      (uncharged now c logged FetchResult.unpaid refl (log_activity-Unspent now s.asked_at _ _ c))
      (Charged-after now c p.1 (simulate_payment url s p)
        (Unspent-trans (log_activity-Unspent now s.asked_at _ _ c)
          (prepare_payment-Unspent true url s required logged now days))
        (simulate_payment-Charged url s now p days))

answer_first-Charged :
    (url : Text) (s : Surroundings) (now : ℕ) (first : FirstAnswer) (c : X402Client)
    → SameDay (current_day now) s
    → Charged now c (answer_first url s first c)
unfolding answer_first
answer_first-Charged url s now FirstAnswer.other_status c days =
    uncharged now c c FetchResult.unpaid refl (Unspent-self now c)
answer_first-Charged url s now FirstAnswer.no_answer c days =
    uncharged now c c FetchResult.failed refl (Unspent-self now c)
answer_first-Charged url s now FirstAnswer.first_timed_out c days =
    uncharged now c c (FetchResult.thrown X402ErrorCode.timeout) refl (Unspent-self now c)
answer_first-Charged url s now (FirstAnswer.unreadable code) c days =
    uncharged now c c (FetchResult.thrown code) refl (Unspent-self now c)
answer_first-Charged url s now (FirstAnswer.asks required) c days =
    answer_request-Charged url s now required c days

-- A call within one day adds to the day's spending exactly the amount on the receipt when it ends with
-- a payment, and nothing when it ends in any other way: unpaid, refused, timed out or failed.
pub fetch-Charged :
    (url : Text) (s : Surroundings) (now : ℕ) (c : X402Client)
    → SameDay (current_day now) s
    → let (result, c') = fetch_with_payment_info url s c in
      spent_today now c'.wallet.enforcer ≡ spent_today now c.wallet.enforcer +ℤ charged result
unfolding fetch_with_payment_info
fetch-Charged url s now c days = elim (Bool-cases (is_demo_url url)) [
  | inl demo ↦ rw demo (handle_demo_url-Charged url s now c days)
  | inr other ↦ rw other (answer_first-Charged url s now s.first c days)
]
