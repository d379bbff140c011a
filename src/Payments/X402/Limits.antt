-- ===== src/Payments/X402/Limits.antt =====
-- What stands behind a payment: the guardrails' leave, the user's where it is asked, and a payer.
use reth_monmouth.Common.{
  ℕ, ◌≤◌, ◌≡◌, refl, sym, ap, ◌∙◌, inl, inr, Bool, true, false, not, Option, none, some, arith,
  if◌then◌else◌, Bool-cases,
}
use reth_monmouth.Common.Int.{pos, ◌≤ℤ◌, ◌<ℤ◌}
use reth_monmouth.Common.Text.{Text}
use reth_monmouth.Guardrails.Policy.{TransactionIntent}
use reth_monmouth.Guardrails.Enforcer.{PolicyEnforcer, current_day}
use reth_monmouth.Guardrails.Enforcer.Permission.{IsPermitted, spent_today, validate_iff}
use reth_monmouth.Wallet.{validate_transaction}
use reth_monmouth.Memory.Entry.{ActivityActionType}
use reth_monmouth.Payments.Types.{PaymentRequired, PaymentPayload, PaymentReceipt, is_native_token}
use reth_monmouth.Payments.X402.{
  X402Client, X402Log, Surroundings, FetchResult, Prepared, SecondAnswer, FirstAnswer, log_activity,
  payment_intent, validate_payment, is_past, create_payment, is_disapproved, prepare_payment,
  record_payment, refusal, conclude, send_payment, simulate_payment, answer_request, is_demo_url,
  handle_demo_url, answer_first, fetch_with_payment_info, generate_demo_payment_required,
}
use reth_monmouth.Payments.X402.Charges.{
  SameDay, validate_payment-Unspent, create_payment_made, fetch-Charged,
}

-- What a payment needs, of the client as the call finds it.
pub record HasLeave (s : Surroundings) (c : X402Client) (payload : PaymentPayload) : Type 0 where
  pub connected : c.wallet.connected_address ≡ some payload.payer
  pub fresh : is_past s.created_at payload.required ≡ false
  pub permitted : IsPermitted s.created_at (payment_intent payload.required) c.wallet.enforcer
  pub approved :
      pos 0 <ℤ c.max_auto_approve
      → c.max_auto_approve <ℤ payload.required.amount
      → s.approves ≡ some true

IsPermitted-back :
    (now : ℕ) (intent : TransactionIntent) (e e' : PolicyEnforcer)
    → e'.policy ≡ e.policy
    → spent_today now e' ≡ spent_today now e
    → IsPermitted now intent e'
    → IsPermitted now intent e
IsPermitted-back now intent e e' policy spent p = record {
  active = rw (← policy) p.active;
  deploys = rw (← policy) p.deploys;
  not_blocked = rw (← policy) p.not_blocked;
  listed = rw (← policy) p.listed;
  selector = rw (← policy) p.selector;
  within_transaction = rw (← policy) p.within_transaction;
  within_day = rw (← spent, ← policy) p.within_day;
}

allowed_now :
    (now : ℕ) (required : PaymentRequired) (c : X402Client)
    → (validate_payment now required c).0.allowed ≡ true
    → IsPermitted now (payment_intent required) c.wallet.enforcer
unfolding validate_payment validate_transaction
allowed_now now required c h = (validate_iff now (payment_intent required) c.wallet.enforcer).0 h

approved_true :
    (s : Surroundings) (required : PaymentRequired) (c c' : X402Client)
    → c'.max_auto_approve ≡ c.max_auto_approve
    → is_disapproved s required c' ≡ false
    → pos 0 <ℤ c.max_auto_approve
    → c.max_auto_approve <ℤ required.amount
    → s.approves ≡ some true
approved_true s required c c' same h low high = ground arith

validate_payment-max :
    (now : ℕ) (required : PaymentRequired) (c : X402Client)
    → (validate_payment now required c).1.max_auto_approve ≡ c.max_auto_approve
unfolding validate_payment
validate_payment-max now required c = refl

prepare_payment_steps :
    (demo : Bool) (url : Text) (s : Surroundings) (required : PaymentRequired) (c : X402Client)
    (payload : PaymentPayload)
    → (prepare_payment demo url s required c).0 ≡ Prepared.payment payload
    → let c' = (validate_payment s.asked_at required c).1 in
      (is_disapproved s required c' ≡ false)
      × ((create_payment s.created_at required s.signing c').0 ≡ Prepared.payment payload)
unfolding prepare_payment
prepare_payment_steps demo url s required c payload made = ground arith

prepare_payment-HasLeave :
    (demo : Bool) (url : Text) (s : Surroundings) (required : PaymentRequired) (c : X402Client)
    (payload : PaymentPayload)
    → current_day s.asked_at ≤ current_day s.created_at
    → (prepare_payment demo url s required c).0 ≡ Prepared.payment payload
    → HasLeave s c payload
prepare_payment-HasLeave demo url s required c payload clock made =
    let c' = (validate_payment s.asked_at required c).1 in
    let (undisputed, created) = prepare_payment_steps demo url s required c payload made in
    let (fresh, connected, allowed, same) =
      create_payment_made s.created_at required s.signing c' payload created in
    let kept = validate_payment-Unspent s.asked_at s.created_at required c clock in
    record {
      connected = sym kept.address ∙ connected;
      fresh = rw same fresh;
      permitted = rw same (
          IsPermitted-back s.created_at (payment_intent required) c.wallet.enforcer
            c'.wallet.enforcer kept.policy kept.spent
            (allowed_now s.created_at required c' allowed));
      approved =
          rw same
            (approved_true s required c c' (validate_payment-max s.asked_at required c) undisputed);
    }

conclude_paid :
    (url : Text) (at : ℕ) (made payload : PaymentPayload) (receipt : PaymentReceipt)
    (second : SecondAnswer) (c : X402Client)
    → (conclude url at made second c).0 ≡ FetchResult.paid payload receipt
    → (made ≡ payload) × (receipt.amount ≡ payload.required.amount)
unfolding conclude record_payment
conclude_paid url at made payload receipt SecondAnswer.serves c h = ground arith
conclude_paid url at made payload receipt SecondAnswer.asks_again c h = cc
conclude_paid url at made payload receipt SecondAnswer.second_timed_out c h = cc
conclude_paid url at made payload receipt SecondAnswer.no_second_answer c h = cc

refusal_unpaid :
    (error : Option _) (payload : PaymentPayload) (receipt : PaymentReceipt)
    → ¬ (refusal error ≡ FetchResult.paid payload receipt)
refusal_unpaid none payload receipt h = cc
refusal_unpaid (some code) payload receipt h = cc

send_payment_paid :
    (url : Text) (s : Surroundings) (p : Prepared × X402Client) (payload : PaymentPayload)
    (receipt : PaymentReceipt)
    → (send_payment url s p).0 ≡ FetchResult.paid payload receipt
    → (p.0 ≡ Prepared.payment payload) × (receipt.amount ≡ payload.required.amount)
unfolding send_payment
send_payment_paid url s (Prepared.refused error, c) payload receipt h =
    absurd (refusal_unpaid error payload receipt h)
send_payment_paid url s (Prepared.payment made, c) payload receipt h =
    let (same, amount) = conclude_paid url s.recorded_at made payload receipt s.second c h in
    (ap Prepared.payment same, amount)

simulate_payment_paid :
    (url : Text) (s : Surroundings) (p : Prepared × X402Client) (payload : PaymentPayload)
    (receipt : PaymentReceipt)
    → (simulate_payment url s p).0 ≡ FetchResult.paid payload receipt
    → (p.0 ≡ Prepared.payment payload) × (receipt.amount ≡ payload.required.amount)
unfolding simulate_payment record_payment
simulate_payment_paid url s (Prepared.refused error, c) payload receipt h =
    absurd (refusal_unpaid error payload receipt h)
simulate_payment_paid url s (Prepared.payment made, c) payload receipt h = ground arith

-- What a paid call has behind it.
abbrev pub Backed : Surroundings → X402Client → PaymentPayload → PaymentReceipt → Type 0
Backed s c payload receipt = HasLeave s c payload × (receipt.amount ≡ payload.required.amount)

HasLeave-logged :
    (at : ℕ) (a : ActivityActionType) (l : X402Log) (s : Surroundings) (c : X402Client)
    (payload : PaymentPayload)
    → HasLeave s (log_activity at a l c) payload
    → HasLeave s c payload
unfolding log_activity
HasLeave-logged at a l s c payload h = record {
  connected = h.connected;
  fresh = h.fresh;
  permitted = h.permitted;
  approved = h.approved;
}

only_retried :
    (b : Bool) (c : X402Client) (r : FetchResult × X402Client) (payload : PaymentPayload)
    (receipt : PaymentReceipt)
    → (if b then (FetchResult.unpaid, c) else r).0 ≡ FetchResult.paid payload receipt
    → r.0 ≡ FetchResult.paid payload receipt
only_retried true c r payload receipt h = cc
only_retried false c r payload receipt h = h

answer_request-Backed :
    (url : Text) (s : Surroundings) (required : PaymentRequired) (c : X402Client)
    (payload : PaymentPayload) (receipt : PaymentReceipt)
    → current_day s.asked_at ≤ current_day s.created_at
    → (answer_request url s required c).0 ≡ FetchResult.paid payload receipt
    → Backed s c payload receipt
unfolding answer_request
answer_request-Backed url s required c payload receipt clock h =
    let l = X402Log.payment_required url required false in
    let logged = log_activity s.asked_at ActivityActionType.decision l c in
    let sent = only_retried (not c.auto_retry) logged _ payload receipt h in
    let (made, amount) =
      send_payment_paid url s (prepare_payment false url s required logged) payload receipt sent in
    (
      HasLeave-logged s.asked_at ActivityActionType.decision l s c payload
          (prepare_payment-HasLeave false url s required logged payload clock made),
      amount,
    )

handle_demo_url-Backed :
    (url : Text) (s : Surroundings) (c : X402Client) (payload : PaymentPayload)
    (receipt : PaymentReceipt)
    → current_day s.asked_at ≤ current_day s.created_at
    → (handle_demo_url url s c).0 ≡ FetchResult.paid payload receipt
    → Backed s c payload receipt
unfolding handle_demo_url
handle_demo_url-Backed url s c payload receipt clock h =
    let required = generate_demo_payment_required url 911_867 s.asked_at s.demo_nonce in
    let l = X402Log.payment_required url required true in
    let logged = log_activity s.asked_at ActivityActionType.decision l c in
    let sent = only_retried (not c.auto_retry) logged _ payload receipt h in
    let (made, amount) =
      simulate_payment_paid url s (prepare_payment true url s required logged) payload receipt
        sent in
    (
      HasLeave-logged s.asked_at ActivityActionType.decision l s c payload
          (prepare_payment-HasLeave true url s required logged payload clock made),
      amount,
    )

answer_first-Backed :
    (url : Text) (s : Surroundings) (first : FirstAnswer) (c : X402Client)
    (payload : PaymentPayload) (receipt : PaymentReceipt)
    → current_day s.asked_at ≤ current_day s.created_at
    → (answer_first url s first c).0 ≡ FetchResult.paid payload receipt
    → Backed s c payload receipt
unfolding answer_first
answer_first-Backed url s (FirstAnswer.asks required) c payload receipt clock h =
    answer_request-Backed url s required c payload receipt clock h
answer_first-Backed url s FirstAnswer.other_status c payload receipt clock h = cc
answer_first-Backed url s FirstAnswer.no_answer c payload receipt clock h = cc
answer_first-Backed url s FirstAnswer.first_timed_out c payload receipt clock h = cc
answer_first-Backed url s (FirstAnswer.unreadable code) c payload receipt clock h = cc

-- A call that ends with a payment had a connected wallet, whose address is the payer; the server's terms
-- had not expired; the wallet's policy permits the payment's intent (with the value 0 for a token other
-- than ETH); the user approved an amount above a positive `maxAutoApprove`; and the receipt is for the
-- amount that was asked. The clock does not go back to an earlier day in between.
pub fetch-Backed :
    (url : Text) (s : Surroundings) (c : X402Client) (payload : PaymentPayload)
    (receipt : PaymentReceipt)
    → current_day s.asked_at ≤ current_day s.created_at
    → (fetch_with_payment_info url s c).0 ≡ FetchResult.paid payload receipt
    → Backed s c payload receipt
unfolding fetch_with_payment_info
fetch-Backed url s c payload receipt clock h = elim (Bool-cases (is_demo_url url)) [
  | inl demo ↦ handle_demo_url-Backed url s c payload receipt clock (rw demo at h)
  | inr other ↦ answer_first-Backed url s s.first c payload receipt clock (rw other at h)
]

native_value :
    (required : PaymentRequired)
    → is_native_token required.token ≡ true
    → (payment_intent required).value ≡ required.amount
native_value required h = rw h

-- After a call within one day that ends with a payment in ETH, the day's spending is within the daily
-- limit.
pub native_fetch-le-max_per_day :
    (url : Text) (s : Surroundings) (c : X402Client) (payload : PaymentPayload)
    (receipt : PaymentReceipt)
    → SameDay (current_day s.created_at) s
    → is_native_token payload.required.token ≡ true
    → (fetch_with_payment_info url s c).0 ≡ FetchResult.paid payload receipt
    → spent_today s.created_at (fetch_with_payment_info url s c).1.wallet.enforcer
      ≤ℤ c.wallet.enforcer.policy.max_per_day
native_fetch-le-max_per_day url s c payload receipt days native h =
    let (leave, amount) = fetch-Backed url s c payload receipt (omega (arith, days.asked)) h in
    let sum = fetch-Charged url s s.created_at c days in
    let fits = rw (native_value payload.required native) at leave.permitted.within_day in
    rw (sum, h, amount) fits
