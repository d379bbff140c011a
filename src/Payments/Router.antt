-- ===== src/Payments/Router.antt =====
-- wallet-sdk/src/payments/PaymentRouter.ts. The router and its clients share one wallet: it is handed to a
-- client for a call and taken back. Each keeps a log of its own. What comes from outside during one payment
-- is its `Outside`; a payment that ends in any way ends with a result.
pub mod Routed
use mathlib.Core.Option
use reth_monmouth.Common.{
  with_listener, without_listener, any, is_some, filter, ℕ, Bool, true, false, not, ◌&&◌, ◌||◌,
  Option, none, some, List, [], ◌∷◌, ◌++◌, map, ◌==◌, if◌then◌else◌, or_else, length, repeat,
}
use reth_monmouth.Common.Int.{ℤ}
use reth_monmouth.Common.Text.{Text, codes, starts_with}
use reth_monmouth.Guardrails.Policy.{Address, Hex, Reason, TransactionIntent}
use reth_monmouth.Wallet
use reth_monmouth.Wallet.{MonmouthWallet}
use reth_monmouth.Memory.Entry.{ActivityActionType}
use reth_monmouth.Memory.ActivityLog.{ActivityLog}
use reth_monmouth.Memory.ActivityLog
use reth_monmouth.Commerce.Types.{EscrowId, EscrowErrorCode, CreateEscrowParams}
use reth_monmouth.Commerce.EscrowClient.{EscrowClient, Outcome, create_escrow, placeholder}
use reth_monmouth.Payments.Types.{PaymentToken, PaymentReceipt}
use reth_monmouth.Payments.X402.{X402Client, Surroundings, FetchResult, fetch_with_payment_info}

pub data PaymentProtocol : Type 0 where
  x402 direct escrow : PaymentProtocol

pub data PaymentPurpose : Type 0 where
  api_access service direct escrow : PaymentPurpose

-- `metadata` is its three known keys.
pub record PaymentRequest : Type 0 where
  pub recipient : Text
  pub amount : ℤ
  pub token : Option PaymentToken
  pub purpose : PaymentPurpose
  pub description : Option Text
  pub service_id : Option Text
  pub escrow_duration : Option ℕ

pub data PaymentError : Type 0 where
  blocked_by_guardrails refused_by_escrow : Option Reason → PaymentError
  x402_not_configured x402_requires_url x402_failed : PaymentError
  escrow_not_configured invalid_recipient transaction_failed : PaymentError
  escrow_failed : EscrowErrorCode → PaymentError

pub record PaymentResult : Type 0 where
  pub success : Bool
  pub protocol : PaymentProtocol
  pub tx_hash : Option Hex
  pub escrow_id : Option EscrowId
  pub receipt : Option PaymentReceipt
  pub error : Option PaymentError

pub data Confidence : Type 0 where
  high medium : Confidence

pub record ProtocolDetection : Type 0 where
  pub protocol : PaymentProtocol
  pub confidence : Confidence

pub data PaymentRouterEvent : Type 0 where
  payment_started : PaymentRequest → PaymentProtocol → PaymentRouterEvent
  payment_completed : PaymentRequest → PaymentResult → PaymentRouterEvent
  payment_failed : PaymentRequest → Option PaymentError → PaymentRouterEvent

-- The payload that the router logs: the request and how it ended.
abbrev pub RouterLog : Type 0
RouterLog = PaymentRequest × PaymentResult

-- `has_sender` says whether there is a `sendTransaction` callback.
pub record PaymentRouter : Type 0 where
  pub wallet : MonmouthWallet
  pub x402_client : Option X402Client
  pub escrow_client : Option EscrowClient
  pub activity_log : Option (ActivityLog RouterLog)
  pub default_escrow_duration : ℕ
  pub has_sender : Bool
  pub listeners : List ℕ
  pub delivered : List (ℕ × PaymentRouterEvent)

-- `sends` is what the callback answers, `none` when it fails; `escrow_id` is the id that is drawn.
pub record Outside : Type 0 where
  pub started_at : ℕ
  pub finished_at : ℕ
  pub fetching : Surroundings
  pub escrow_id : EscrowId
  pub sends : Option Hex

unfoldable pub emit : PaymentRouterEvent → PaymentRouter → PaymentRouter
emit event r = record r { delivered = r.delivered ++ map (λ l. (l, event)) r.listeners }

unfoldable pub log_activity : ℕ → PaymentRequest → PaymentResult → PaymentRouter → PaymentRouter
log_activity now request result r = record r {
  activity_log =
      Option.map
        (λ l.
          (ActivityLog.log now
            (record {
              agent_id = r.wallet.identity.agent_id;
              action_type =
                  if result.success
                  then ActivityActionType.transaction
                  else ActivityActionType.error;
              tx_hash = none;
              payload = (request, result);
            })
            l).1)
        r.activity_log;
}

abbrev pub is_url : Text → Bool
is_url recipient =
    starts_with (codes "http://") recipient || starts_with (codes "https://") recipient

abbrev detected : PaymentProtocol → Confidence → ProtocolDetection
detected protocol confidence = record { protocol = protocol; confidence = confidence }

abbrev by_purpose : PaymentPurpose → ProtocolDetection
by_purpose PaymentPurpose.api_access = detected PaymentProtocol.x402 Confidence.high
by_purpose PaymentPurpose.escrow = detected PaymentProtocol.escrow Confidence.high
by_purpose PaymentPurpose.service = detected PaymentProtocol.escrow Confidence.high
by_purpose PaymentPurpose.direct = detected PaymentProtocol.direct Confidence.high

unfoldable pub detect_protocol : PaymentRequest → ProtocolDetection
detect_protocol request =
    if is_url request.recipient
    then detected PaymentProtocol.x402 Confidence.high
    else by_purpose request.purpose

unfoldable pub extract_address : Text → Option Address
extract_address recipient =
    if starts_with (codes "0x") recipient && length recipient == 42 then some recipient else none

abbrev failure : PaymentProtocol → PaymentError → PaymentResult
failure protocol error = record {
  success = false;
  protocol = protocol;
  tx_hash = none;
  escrow_id = none;
  receipt = none;
  error = some error;
}

abbrev fetched : FetchResult → PaymentResult
fetched FetchResult.unpaid = record {
  success = true;
  protocol = PaymentProtocol.x402;
  tx_hash = none;
  escrow_id = none;
  receipt = none;
  error = none;
}
fetched (FetchResult.paid payload receipt) = record {
  success = true;
  protocol = PaymentProtocol.x402;
  tx_hash = none;
  escrow_id = none;
  receipt = some receipt;
  error = none;
}
fetched (FetchResult.thrown code) = failure PaymentProtocol.x402 PaymentError.x402_failed
fetched FetchResult.failed = failure PaymentProtocol.x402 PaymentError.x402_failed

unfoldable pub handle_x402_payment :
    Outside → PaymentRequest → PaymentRouter → PaymentResult × PaymentRouter
handle_x402_payment o request r = elim r.x402_client [
  | none ↦ (failure PaymentProtocol.x402 PaymentError.x402_not_configured, r)
  | some client ↦
      if not (starts_with (codes "http") request.recipient)
      then (failure PaymentProtocol.x402 PaymentError.x402_requires_url, r)
      else let (result, client') =
          fetch_with_payment_info request.recipient o.fetching
            (record client { wallet = r.wallet }) in
        (fetched result, record r { wallet = client'.wallet; x402_client = some client' })
]

-- `text || fallback`
abbrev nonempty_or : Option Text → Text → Text
nonempty_or (some (c ∷ s)) fallback = c ∷ s
nonempty_or _ fallback = fallback

-- `number || fallback`
abbrev nonzero_or : Option ℕ → ℕ → ℕ
nonzero_or (some n) fallback = if n == 0 then fallback else n
nonzero_or none fallback = fallback

abbrev created : Outcome → PaymentResult
created (Outcome.thrown code) = failure PaymentProtocol.escrow (PaymentError.escrow_failed code)
created (Outcome.returned e) = record {
  success = e.success;
  protocol = PaymentProtocol.escrow;
  tx_hash = e.tx_hash;
  escrow_id = some e.escrow_id;
  receipt = none;
  error = if e.success then none else some (PaymentError.refused_by_escrow e.error);
}

abbrev pub escrow_params : PaymentRequest → Address → ℕ → CreateEscrowParams
escrow_params request recipient default_duration = record {
  recipient = recipient;
  amount = request.amount;
  token = request.token;
  description = nonempty_or request.description (codes "Escrow payment");
  duration_seconds = nonzero_or request.escrow_duration default_duration;
  service_id = request.service_id;
  arbiter = none;
}

unfoldable pub handle_escrow_payment :
    Outside → PaymentRequest → PaymentRouter → PaymentResult × PaymentRouter
handle_escrow_payment o request r = elim r.escrow_client [
  | none ↦ (failure PaymentProtocol.escrow PaymentError.escrow_not_configured, r)
  | some client ↦ elim (extract_address request.recipient) [
    | none ↦ (failure PaymentProtocol.escrow PaymentError.invalid_recipient, r)
    | some recipient ↦
        let (outcome, client') =
          create_escrow o.started_at o.escrow_id
            (escrow_params request recipient r.default_escrow_duration)
            (record client { wallet = r.wallet }) in
        (created outcome, record r { wallet = client'.wallet; escrow_client = some client' })
  ]
]

abbrev sent : Hex → PaymentResult
sent hash = record {
  success = true;
  protocol = PaymentProtocol.direct;
  tx_hash = some hash;
  escrow_id = none;
  receipt = none;
  error = none;
}

-- Without a callback the transfer is simulated.
abbrev transfer_hash : Outside → PaymentRouter → Option Hex
transfer_hash o r = if r.has_sender then o.sends else some (placeholder b'd')

unfoldable pub handle_direct_payment :
    Outside → PaymentRequest → PaymentRouter → PaymentResult × PaymentRouter
handle_direct_payment o request r = elim (extract_address request.recipient) [
  | none ↦ (failure PaymentProtocol.direct PaymentError.invalid_recipient, r)
  | some recipient ↦ elim (transfer_hash o r) [
    | none ↦ (failure PaymentProtocol.direct PaymentError.transaction_failed, r)
    | some hash ↦ (
      sent hash,
      record r { wallet = Wallet.record_transaction o.finished_at hash request.amount r.wallet },
    )
  ]
]

unfoldable pub route :
    PaymentProtocol → Outside → PaymentRequest → PaymentRouter → PaymentResult × PaymentRouter
unfolding handle_x402_payment handle_escrow_payment handle_direct_payment
route PaymentProtocol.x402 o request r = handle_x402_payment o request r
route PaymentProtocol.escrow o request r = handle_escrow_payment o request r
route PaymentProtocol.direct o request r = handle_direct_payment o request r

-- The end of `pay`, after the guardrails.
unfoldable pub complete :
    PaymentProtocol → Outside → PaymentRequest → PaymentRouter → PaymentResult × PaymentRouter
unfolding route log_activity emit
complete protocol o request r =
    let (result, r') = route protocol o request r in
    (
      result,
      emit (PaymentRouterEvent.payment_completed request result)
          (log_activity o.finished_at request result r'),
    )

-- What the router asks the guardrails.
abbrev pub request_intent : PaymentRequest → Address → TransactionIntent
request_intent request recipient = record {
  to = some recipient;
  value = request.amount;
  calldata = none;
  is_contract_deploy = false;
}

unfoldable pub pay : Outside → PaymentRequest → PaymentRouter → PaymentResult × PaymentRouter
unfolding detect_protocol extract_address complete emit
pay o request r =
    let protocol = (detect_protocol request).protocol in
    let started = emit (PaymentRouterEvent.payment_started request protocol) r in
    elim (extract_address request.recipient) [
      | none ↦ complete protocol o request started
      | some recipient ↦
          let (validation, w) =
            Wallet.validate_transaction o.started_at (request_intent request recipient) r.wallet in
          let checked = record started { wallet = w } in
          if validation.allowed
          then complete protocol o request checked
          else let error = PaymentError.blocked_by_guardrails validation.reason in
            (
              failure protocol error,
              emit (PaymentRouterEvent.payment_failed request (some error)) checked,
            )
    ]

unfoldable pub is_protocol_available : PaymentProtocol → PaymentRouter → Bool
is_protocol_available PaymentProtocol.x402 r = is_some r.x402_client
is_protocol_available PaymentProtocol.escrow r = is_some r.escrow_client
is_protocol_available PaymentProtocol.direct r = true

unfoldable pub get_available_protocols : PaymentRouter → List PaymentProtocol
get_available_protocols r =
    PaymentProtocol.direct ∷ (if is_some r.x402_client then PaymentProtocol.x402 ∷ [] else [])
    ++ (if is_some r.escrow_client then PaymentProtocol.escrow ∷ [] else [])

unfoldable pub set_x402_client : X402Client → PaymentRouter → PaymentRouter
set_x402_client client r = record r { x402_client = some client }

unfoldable pub set_escrow_client : EscrowClient → PaymentRouter → PaymentRouter
set_escrow_client client r = record r { escrow_client = some client }

unfoldable pub set_activity_log : ActivityLog RouterLog → PaymentRouter → PaymentRouter
set_activity_log log r = record r { activity_log = some log }

-- A callback or `undefined`.
unfoldable pub set_send_transaction : Bool → PaymentRouter → PaymentRouter
set_send_transaction has_sender r = record r { has_sender = has_sender }

-- `on`: the listeners are a `Set`, so a listener that is there is not added again.
unfoldable pub on : ℕ → PaymentRouter → PaymentRouter
on listener r = record r { listeners = with_listener listener r.listeners }

-- What `on` returns: it takes the listener out again.
unfoldable pub off : ℕ → PaymentRouter → PaymentRouter
off listener r = record r { listeners = without_listener listener r.listeners }
