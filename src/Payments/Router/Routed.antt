-- ===== src/Payments/Router/Routed.antt =====
-- What a routed payment charges, and what the router checks before it routes.
use reth_monmouth.Common.{
  ℕ, ◌≡◌, refl, inl, inr, true, Option, none, some, [], ◌∷◌, arith, if◌then◌else◌, Bool-cases,
  Option-cases,
}
use reth_monmouth.Common.Int.{ℤ, pos, ◌+ℤ◌}
use reth_monmouth.Common.Text.{Text, starts_with}
use reth_monmouth.Guardrails.Policy.{Address}
use reth_monmouth.Guardrails.Enforcer.{current_day}
use reth_monmouth.Guardrails.Enforcer.Permission.{IsPermitted, spent_today, validate_iff}
use reth_monmouth.Guardrails.Enforcer.Recorded.{spent_today-validate}
use reth_monmouth.Wallet.{MonmouthWallet, validate_transaction, record_transaction}
use reth_monmouth.Commerce.Types.{EscrowId, CreateEscrowParams}
use reth_monmouth.Commerce.EscrowClient.{
  EscrowClient, Outcome, create_escrow, lock_funds, escrow_intent,
}
use reth_monmouth.Commerce.EscrowClient.Calls.{is_success}
use reth_monmouth.Payments.Types.{PaymentReceipt}
use reth_monmouth.Payments.X402.{FetchResult, fetch_with_payment_info}
use reth_monmouth.Payments.X402.Charges.{SameDay, charged, fetch-Charged, spent_later, plus_zero}
use reth_monmouth.Payments.Router.{
  PaymentProtocol, PaymentRequest, PaymentResult, PaymentRouter, Outside, emit, log_activity,
  detect_protocol, extract_address, is_url, handle_x402_payment, handle_escrow_payment,
  handle_direct_payment, route, complete, request_intent, pay, fetched, created, transfer_hash,
  escrow_params, PaymentRouterEvent,
}

-- A payment that is started, fetched and finished on the day of `now`.
pub record OneDay (now : ℕ) (o : Outside) : Type 0 where
  pub started : current_day o.started_at ≡ current_day now
  pub finished : current_day o.finished_at ≡ current_day now
  pub fetching : SameDay (current_day now) o.fetching

abbrev receipt_amount : Option PaymentReceipt → ℤ
receipt_amount none = pos 0
receipt_amount (some receipt) = receipt.amount

abbrev protocol_cost : PaymentProtocol → ℤ → Option PaymentReceipt → ℤ
protocol_cost PaymentProtocol.x402 amount receipt = receipt_amount receipt
protocol_cost PaymentProtocol.direct amount receipt = amount
protocol_cost PaymentProtocol.escrow amount receipt = amount

-- What a result charges: the receipt's amount for a paid call, the request's for a transfer or an escrow.
abbrev pub cost : PaymentRequest → PaymentResult → ℤ
cost request result =
    if result.success then protocol_cost result.protocol request.amount result.receipt else pos 0

abbrev wallet_spent : ℕ → MonmouthWallet → ℤ
wallet_spent now w = spent_today now w.enforcer

-- What the wallet holds is what it held and the cost.
abbrev Costs : ℕ → PaymentRequest → PaymentRouter → PaymentResult × PaymentRouter → Type 0
Costs now request r p = wallet_spent now p.1.wallet ≡ wallet_spent now r.wallet +ℤ cost request p.0

fetched-cost : (request : PaymentRequest) (f : FetchResult) → cost request (fetched f) ≡ charged f
fetched-cost request FetchResult.unpaid = refl
fetched-cost request (FetchResult.paid payload receipt) = refl
fetched-cost request (FetchResult.thrown code) = refl
fetched-cost request FetchResult.failed = refl

x402-Costs :
    (now : ℕ) (o : Outside) (request : PaymentRequest) (r : PaymentRouter)
    → OneDay now o
    → Costs now request r (handle_x402_payment o request r)
unfolding handle_x402_payment
x402-Costs now o request r day = elim (Option-cases r.x402_client) [
  | inl missing ↦ ground (arith, plus_zero (wallet_spent now r.wallet))
  | inr (client, here) ↦
      let shared = record client { wallet = r.wallet } in
      let sum = fetch-Charged request.recipient o.fetching now shared day.fetching in
      let result = (fetch_with_payment_info request.recipient o.fetching shared).0 in
      ground (arith, plus_zero (wallet_spent now r.wallet), sum, fetched-cost request result)
]

create_escrow_charges :
    (at now : ℕ) (id : EscrowId) (params : CreateEscrowParams) (c : EscrowClient)
    → current_day at ≡ current_day now
    → let (o, c') = create_escrow at id params c in
      wallet_spent now c'.wallet
      ≡ wallet_spent now c.wallet +ℤ (if is_success o then params.amount else pos 0)
unfolding create_escrow lock_funds validate_transaction record_transaction
create_escrow_charges at now id params c same =
    let old = spent_today-validate at now (escrow_intent params) c.wallet.enforcer (omega arith) in
    let zero = plus_zero (wallet_spent now c.wallet) in
    elim (Option-cases c.wallet.connected_address) [
      | inl nobody ↦ ground (arith, zero)
      | inr (payer, here) ↦
          elim (Bool-cases (validate_transaction at (escrow_intent params) c.wallet).0.allowed) [
            | inl allowed ↦ ground (
              arith,
              spent_later at now params.amount
                  (validate_transaction at (escrow_intent params) c.wallet).1.enforcer same,
              old,
            )
            | inr refused ↦ ground (arith, zero, old)
          ]
    ]

created-cost :
    (request : PaymentRequest) (o : Outcome)
    → cost request (created o) ≡ (if is_success o then request.amount else pos 0)
created-cost request (Outcome.returned e) = ground arith
created-cost request (Outcome.thrown code) = refl

escrow-Costs :
    (now : ℕ) (o : Outside) (request : PaymentRequest) (r : PaymentRouter)
    → OneDay now o
    → Costs now request r (handle_escrow_payment o request r)
unfolding handle_escrow_payment
escrow-Costs now o request r day = elim (Option-cases r.escrow_client) [
  | inl missing ↦ ground (arith, plus_zero (wallet_spent now r.wallet))
  | inr (client, here) ↦ elim (Option-cases (extract_address request.recipient)) [
    | inl none_there ↦ ground (arith, plus_zero (wallet_spent now r.wallet))
    | inr (recipient, there) ↦
        let params = escrow_params request recipient r.default_escrow_duration in
        let shared = record client { wallet = r.wallet } in
        let sum = create_escrow_charges o.started_at now o.escrow_id params shared day.started in
        let outcome = (create_escrow o.started_at o.escrow_id params shared).0 in
        ground (arith, sum, created-cost request outcome)
  ]
]

direct-Costs :
    (now : ℕ) (o : Outside) (request : PaymentRequest) (r : PaymentRouter)
    → OneDay now o
    → Costs now request r (handle_direct_payment o request r)
unfolding handle_direct_payment record_transaction
direct-Costs now o request r day = elim (Option-cases (extract_address request.recipient)) [
  | inl nobody ↦ ground (arith, plus_zero (wallet_spent now r.wallet))
  | inr (recipient, there) ↦ elim (Option-cases (transfer_hash o r)) [
    | inl lost ↦ ground (arith, plus_zero (wallet_spent now r.wallet))
    | inr (hash, it) ↦
        ground (arith, spent_later o.finished_at now request.amount r.wallet.enforcer day.finished)
  ]
]

route-Costs :
    (now : ℕ) (protocol : PaymentProtocol) (o : Outside) (request : PaymentRequest)
    (r : PaymentRouter)
    → OneDay now o
    → Costs now request r (route protocol o request r)
unfolding route
route-Costs now PaymentProtocol.x402 o request r day = x402-Costs now o request r day
route-Costs now PaymentProtocol.escrow o request r day = escrow-Costs now o request r day
route-Costs now PaymentProtocol.direct o request r day = direct-Costs now o request r day

complete-Costs :
    (now : ℕ) (protocol : PaymentProtocol) (o : Outside) (request : PaymentRequest)
    (r : PaymentRouter)
    → OneDay now o
    → Costs now request r (complete protocol o request r)
unfolding complete emit log_activity
complete-Costs now protocol o request r day = route-Costs now protocol o request r day

-- A payment within one day adds to the day's spending, once, what its result costs: the amount of the
-- receipt for a paid call, the amount of the request for a transfer or an escrow that succeeded, and
-- nothing for a payment that failed, whoever refused it.
pub pay-cost :
    (now : ℕ) (o : Outside) (request : PaymentRequest) (r : PaymentRouter)
    → OneDay now o
    → let (result, r') = pay o request r in
      spent_today now r'.wallet.enforcer ≡ spent_today now r.wallet.enforcer +ℤ cost request result
unfolding pay emit validate_transaction
pay-cost now o request r day = elim (Option-cases (extract_address request.recipient)) [
  | inl url ↦
      let protocol = (detect_protocol request).protocol in
      let started = emit (PaymentRouterEvent.payment_started request protocol) r in
      ground (arith, complete-Costs now protocol o request started day)
  | inr (recipient, here) ↦
      let protocol = (detect_protocol request).protocol in
      let intent = request_intent request recipient in
      let w = (validate_transaction o.started_at intent r.wallet).1 in
      let started = emit (PaymentRouterEvent.payment_started request protocol) r in
      let old =
        spent_today-validate o.started_at now intent r.wallet.enforcer
          (omega (arith, day.started)) in
      ground (
        arith,
        old,
        plus_zero (wallet_spent now r.wallet),
        complete-Costs now protocol o request (record started { wallet = w }) day,
      )
]

url_no_address : (recipient : Text) → is_url recipient ≡ true → extract_address recipient ≡ none
unfolding extract_address starts_with
url_no_address [] h = refl
url_no_address (c ∷ s) h = ground arith

url-detect_protocol :
    (request : PaymentRequest)
    → is_url request.recipient ≡ true
    → (detect_protocol request).protocol ≡ PaymentProtocol.x402
unfolding detect_protocol
url-detect_protocol request h = rw h

pay_url :
    (o : Outside) (request : PaymentRequest) (r : PaymentRouter)
    → is_url request.recipient ≡ true
    → pay o request r
      ≡ complete PaymentProtocol.x402 o request
          (emit (PaymentRouterEvent.payment_started request PaymentProtocol.x402) r)
unfolding pay
pay_url o request r h =
    ground (arith, url_no_address request.recipient h, url-detect_protocol request h)

complete_amount :
    (o : Outside) (request : PaymentRequest) (amount : ℤ) (r r' : PaymentRouter)
    → r'.wallet ≡ r.wallet
    → r'.x402_client ≡ r.x402_client
    → ((complete PaymentProtocol.x402 o (record request { amount = amount }) r').0
        ≡ (complete PaymentProtocol.x402 o request r).0)
      × ((complete PaymentProtocol.x402 o (record request { amount = amount }) r').1.wallet
          ≡ (complete PaymentProtocol.x402 o request r).1.wallet)
unfolding complete route handle_x402_payment emit log_activity
complete_amount o request amount r r' same same_client = ground arith

-- A payment to a URL ends in the same way, and with the same wallet, whatever amount is requested: the
-- server's price is paid, and the request's amount bounds nothing.
pub url_amount_ignored :
    (o : Outside) (request : PaymentRequest) (amount : ℤ) (r : PaymentRouter)
    → is_url request.recipient ≡ true
    → let (result, r') = pay o request r in
      let (result', r'') = pay o (record request { amount = amount }) r in
      (result' ≡ result) × (r''.wallet ≡ r'.wallet)
unfolding emit
url_amount_ignored o request amount r h =
    let other = record request { amount = amount } in
    let started = emit (PaymentRouterEvent.payment_started request PaymentProtocol.x402) r in
    let started' = emit (PaymentRouterEvent.payment_started other PaymentProtocol.x402) r in
    rw (pay_url o request r h, pay_url o other r h)
      (complete_amount o request amount started started' refl refl)

-- A payment to an address that succeeds, by transfer, escrow or otherwise, was permitted by the wallet's
-- policy when it was started.
pub pay-IsPermitted :
    (o : Outside) (request : PaymentRequest) (recipient : Address) (r : PaymentRouter)
    → extract_address request.recipient ≡ some recipient
    → (pay o request r).0.success ≡ true
    → IsPermitted o.started_at (request_intent request recipient) r.wallet.enforcer
unfolding pay validate_transaction
pay-IsPermitted o request recipient r here h =
    let intent = request_intent request recipient in
    elim (Bool-cases (validate_transaction o.started_at intent r.wallet).0.allowed) [
      | inl allowed ↦ (validate_iff o.started_at intent r.wallet.enforcer).0 allowed
      | inr refused ↦ ground arith
    ]
