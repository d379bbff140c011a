-- ===== src/Payments/X402.antt =====
-- wallet-sdk/src/payments/X402Client.ts: a `fetch` that pays when the server asks for it. What comes from
-- outside during one call (the server's answers, the user's, the signer's, and the clock each time it is
-- read) is the call's `Surroundings`. The text of a stub signature and the parsing of the server's headers
-- are outside too; nobody else uses the wallet during a call.
pub mod Charges
pub mod Limits
use mathlib.Core.Option
use reth_monmouth.Common.{
  ℕ, ◌+◌, ◌/◌, Bool, true, false, not, ◌&&◌, Option, none, some, List, [], ◌∷◌, ◌++◌, if◌then◌else◌,
  any, is_some, repeat,
}
use reth_monmouth.Common.Int.{ℤ, pos, ltb_ℤ}
use reth_monmouth.Common.Text.{Text, codes, includes}
use reth_monmouth.Guardrails.Policy.{
  Address, Hex, Reason, Rule, PolicyValidationResult, TransactionIntent, given,
}
use reth_monmouth.Wallet
use reth_monmouth.Wallet.{MonmouthWallet}
use reth_monmouth.Memory.Entry.{ActivityActionType}
use reth_monmouth.Memory.ActivityLog.{ActivityLog}
use reth_monmouth.Memory.ActivityLog
use reth_monmouth.Payments.Types.{
  PaymentRequired, PaymentPayload, PaymentReceipt, X402ErrorCode, get_token_address,
  is_native_token,
}

-- The payloads that the client logs; the flag is `demo`.
pub data X402Log : Type 0 where
  payment_required : Text → PaymentRequired → Bool → X402Log
  payment_rejected : Text → Option Reason → Option Rule → Bool → X402Log
  payment_made : Text → PaymentRequired → Bool → X402Log

pub record X402Client : Type 0 where
  pub wallet : MonmouthWallet
  pub auto_retry : Bool
  pub max_auto_approve : ℤ
  pub activity_log : Option (ActivityLog X402Log)

-- How the payment is signed: by the stub, or by a signer, which may fail.
pub data Signing : Type 0 where
  stub : Hex → Signing
  signer : Option Hex → Signing

-- The server's first answer: another status, a request for payment, headers that cannot be read, or no answer.
pub data FirstAnswer : Type 0 where
  other_status no_answer first_timed_out : FirstAnswer
  asks : PaymentRequired → FirstAnswer
  unreadable : X402ErrorCode → FirstAnswer

-- The server's answer to the payment.
pub data SecondAnswer : Type 0 where
  serves asks_again no_second_answer second_timed_out : SecondAnswer

-- `approves` is what `onPaymentRequired` answers, `none` without that callback.
pub record Surroundings : Type 0 where
  pub first : FirstAnswer
  pub second : SecondAnswer
  pub approves : Option Bool
  pub signing : Signing
  pub asked_at : ℕ
  pub created_at : ℕ
  pub recorded_at : ℕ
  pub demo_nonce : Text

pub data FetchResult : Type 0 where
  unpaid : FetchResult
  paid : PaymentPayload → PaymentReceipt → FetchResult
  thrown : X402ErrorCode → FetchResult
  failed : FetchResult

-- A payment, or the error that is thrown; `none` is an error of another class.
pub data Prepared : Type 0 where
  payment : PaymentPayload → Prepared
  refused : Option X402ErrorCode → Prepared

unfoldable pub log_activity : ℕ → ActivityActionType → X402Log → X402Client → X402Client
log_activity now action payload c = record c {
  activity_log =
      Option.map
        (λ l.
          (ActivityLog.log now
            (record {
              agent_id = c.wallet.identity.agent_id;
              action_type = action;
              tx_hash = none;
              payload = payload;
            })
            l).1)
        c.activity_log;
}

-- For a token other than ETH the value is 0.
abbrev pub payment_intent : PaymentRequired → TransactionIntent
payment_intent required = record {
  to = some required.recipient;
  value = if is_native_token required.token then required.amount else pos 0;
  calldata = none;
  is_contract_deploy = false;
}

unfoldable pub validate_payment :
    ℕ → PaymentRequired → X402Client → PolicyValidationResult × X402Client
validate_payment now required c =
    let (validation, w) = Wallet.validate_transaction now (payment_intent required) c.wallet in
    (validation, record c { wallet = w })

-- `expiry < Math.floor(Date.now() / 1000)`, which `NaN` is not.
abbrev pub is_past : ℕ → PaymentRequired → Bool
is_past now required = given required.expiry (λ e. ltb_ℤ e (pos (now / 1000)))

pub data Signed : Type 0 where
  signature : Hex → Signed
  unsigned : Option X402ErrorCode → Signed

-- With a signer the token's address is looked up first, and `BigInt(NaN)` throws.
unfoldable pub sign_payment : PaymentRequired → Signing → Signed
unfolding get_token_address is_native_token
sign_payment required (Signing.stub h) = Signed.signature h
sign_payment required (Signing.signer answer) =
    if not (is_native_token required.token)
      && not (is_some (get_token_address required.token required.chain_id))
    then Signed.unsigned (some X402ErrorCode.unsupported_token)
    else if not (is_some required.expiry)
    then Signed.unsigned none
    else elim answer [
      | none ↦ Signed.unsigned (some X402ErrorCode.signature_failed)
      | some h ↦ Signed.signature h
    ]

unfoldable pub create_payment : ℕ → PaymentRequired → Signing → X402Client → Prepared × X402Client
unfolding validate_payment sign_payment
create_payment now required signing c =
    if is_past now required
    then (Prepared.refused (some X402ErrorCode.payment_expired), c)
    else elim c.wallet.connected_address [
      | none ↦ (Prepared.refused (some X402ErrorCode.signature_failed), c)
      | some payer ↦
          let (validation, c') = validate_payment now required c in
          if not validation.allowed
          then (Prepared.refused (some X402ErrorCode.guardrail_rejected), c')
          else elim (sign_payment required signing) [
            | Signed.unsigned error ↦ (Prepared.refused error, c')
            | Signed.signature h ↦ (
              Prepared.payment
                  (record { required = required; signature = h; payer = payer; created_at = now }),
              c',
            )
          ]
    ]

-- `maxAutoApprove > 0n && amount > maxAutoApprove`, without a callback that approves.
abbrev pub is_disapproved : Surroundings → PaymentRequired → X402Client → Bool
is_disapproved s required c =
    ltb_ℤ (pos 0) c.max_auto_approve
    && ltb_ℤ c.max_auto_approve required.amount
    && not (given s.approves (λ a. a))

-- From the guardrails to the signed payment, as both `fetchWithPaymentInfo` and `handleDemoUrl` have it.
unfoldable pub prepare_payment :
    Bool → Text → Surroundings → PaymentRequired → X402Client → Prepared × X402Client
unfolding validate_payment create_payment log_activity
prepare_payment demo url s required c =
    let (validation, c') = validate_payment s.asked_at required c in
    if not validation.allowed
    then (
      Prepared.refused (some X402ErrorCode.guardrail_rejected),
      log_activity s.asked_at ActivityActionType.error
          (X402Log.payment_rejected url validation.reason validation.violated_rule demo) c',
    )
    else if is_disapproved s required c'
    then (Prepared.refused (some X402ErrorCode.guardrail_rejected), c')
    else create_payment s.created_at required s.signing c'

-- Records the spend and logs it; `hash` stands for a transaction.
unfoldable pub record_payment :
    Bool → Text → ℕ → Hex → PaymentPayload → X402Client → FetchResult × X402Client
unfolding log_activity
record_payment demo url now hash payload c =
    let required = payload.required in
    let charged = record c {
      wallet = Wallet.record_transaction now hash required.amount c.wallet;
    } in
    (
      FetchResult.paid payload (record {
        payment_id = required.nonce;
        amount = required.amount;
        recipient = required.recipient;
        token = required.token;
        timestamp = now;
      }),
      log_activity now ActivityActionType.transaction (X402Log.payment_made url required demo)
          charged,
    )

abbrev pub refusal : Option X402ErrorCode → FetchResult
refusal none = FetchResult.failed
refusal (some code) = FetchResult.thrown code

-- The end of a call, by the answer to the payment.
unfoldable pub conclude :
    Text → ℕ → PaymentPayload → SecondAnswer → X402Client → FetchResult × X402Client
unfolding record_payment
conclude url now payload SecondAnswer.asks_again c =
    (FetchResult.thrown X402ErrorCode.payment_rejected, c)
conclude url now payload SecondAnswer.second_timed_out c =
    (FetchResult.thrown X402ErrorCode.timeout, c)
conclude url now payload SecondAnswer.no_second_answer c = (FetchResult.failed, c)
conclude url now payload SecondAnswer.serves c =
    record_payment false url now (codes "0x" ++ repeat 64 b'0') payload c

-- Sends the payment, if there is one.
unfoldable pub send_payment : Text → Surroundings → Prepared × X402Client → FetchResult × X402Client
unfolding conclude
send_payment url s (Prepared.refused error, c) = (refusal error, c)
send_payment url s (Prepared.payment payload, c) = conclude url s.recorded_at payload s.second c

-- Everything after the parsing of a request for payment.
unfoldable pub answer_request :
    Text → Surroundings → PaymentRequired → X402Client → FetchResult × X402Client
unfolding prepare_payment send_payment log_activity
answer_request url s required c =
    let asked =
      log_activity s.asked_at ActivityActionType.decision
        (X402Log.payment_required url required false) c in
    if not c.auto_retry
    then (FetchResult.unpaid, asked)
    else send_payment url s (prepare_payment false url s required asked)

unfoldable pub is_demo_url : Text → Bool
unfolding includes
is_demo_url url =
    any (λ endpoint. includes endpoint url)
      (codes "api.example.com/market-data"
        ∷ codes "api.example.com/ai-analysis"
        ∷ codes "api.example.com/premium-feed"
        ∷ codes "localhost:9999"
        ∷ [])

-- The price and the description of a demo endpoint.
abbrev demo_offer : Text → ℕ × Text
demo_offer url =
    if includes (codes "market-data") url
    then (1_000_000_000_000_000, codes "Real-time market data access")
    else if includes (codes "ai-analysis") url
    then (10_000_000_000_000_000, codes "AI-powered analysis")
    else if includes (codes "premium-feed") url
    then (50_000_000_000_000_000, codes "Premium data feed subscription")
    else (10_000_000_000_000_000, codes "API access")

unfoldable pub generate_demo_payment_required : Text → ℕ → ℕ → Text → PaymentRequired
unfolding includes
generate_demo_payment_required url chain_id now nonce = record {
  recipient = codes "0x742d35Cc6634C0532925a3b844Bc9e7595f5bE91";
  amount = pos (demo_offer url).0;
  token = codes "ETH";
  chain_id = chain_id;
  nonce = nonce;
  expiry = some (pos (now / 1000 + 300));
  description = some (demo_offer url).1;
}

-- Records a prepared payment at once: nothing is sent.
unfoldable pub simulate_payment :
    Text → Surroundings → Prepared × X402Client → FetchResult × X402Client
unfolding record_payment
simulate_payment url s (Prepared.refused error, c) = (refusal error, c)
simulate_payment url s (Prepared.payment payload, c) =
    record_payment true url s.recorded_at (codes "0x" ++ repeat 60 b'0' ++ codes "demo") payload c

unfoldable pub handle_demo_url : Text → Surroundings → X402Client → FetchResult × X402Client
unfolding generate_demo_payment_required prepare_payment simulate_payment log_activity
handle_demo_url url s c =
    let required = generate_demo_payment_required url 911_867 s.asked_at s.demo_nonce in
    let asked =
      log_activity s.asked_at ActivityActionType.decision
        (X402Log.payment_required url required true) c in
    if not c.auto_retry
    then (FetchResult.unpaid, asked)
    else simulate_payment url s (prepare_payment true url s required asked)

-- By the server's first answer.
unfoldable pub answer_first :
    Text → Surroundings → FirstAnswer → X402Client → FetchResult × X402Client
unfolding answer_request
answer_first url s FirstAnswer.other_status c = (FetchResult.unpaid, c)
answer_first url s FirstAnswer.no_answer c = (FetchResult.failed, c)
answer_first url s FirstAnswer.first_timed_out c = (FetchResult.thrown X402ErrorCode.timeout, c)
answer_first url s (FirstAnswer.unreadable code) c = (FetchResult.thrown code, c)
answer_first url s (FirstAnswer.asks required) c = answer_request url s required c

unfoldable pub fetch_with_payment_info : Text → Surroundings → X402Client → FetchResult × X402Client
unfolding is_demo_url handle_demo_url answer_first
fetch_with_payment_info url s c =
    if is_demo_url url then handle_demo_url url s c else answer_first url s s.first c
