-- ===== src/Tests/Payments.antt =====
-- Tests of the X402 client and of the payment router (wallet-sdk/src/payments).
use reth_monmouth.Common.{◌∷◌, ◌++◌, repeat, ℕ, ◌≡◌, refl, true, false, none, some, [], arith}
use reth_monmouth.Common.Int.{pos, ◌+ℤ◌, ◌≤ℤ◌}
use reth_monmouth.Common.Text.{Text, codes, text_eq, starts_with, includes}
use reth_monmouth.Guardrails.Policy.{research}
use reth_monmouth.Guardrails.Enforcer
use reth_monmouth.Guardrails.Enforcer.{current_day}
use reth_monmouth.Guardrails.Enforcer.Permission.{spent_today}
use reth_monmouth.Wallet
use reth_monmouth.Wallet.{MonmouthWallet}
use reth_monmouth.Payments.Types.{
  PaymentRequired, PaymentPayload, PaymentReceipt, X402ErrorCode, is_native_token,
}
use reth_monmouth.Payments.X402.{
  X402Client, Surroundings, FirstAnswer, SecondAnswer, Signing, FetchResult,
  fetch_with_payment_info, log_activity,
}
use reth_monmouth.Payments.X402.Charges.{SameDay, charged, fetch-Charged}
use reth_monmouth.Payments.X402.Limits.{Backed, fetch-Backed, native_fetch-le-max_per_day}
use reth_monmouth.Guardrails.Enforcer.Permission.{IsPermitted}
use reth_monmouth.Payments.Router.{
  PaymentRouter, PaymentRequest, PaymentPurpose, Outside, request_intent, pay, detect_protocol,
  extract_address,
}
use reth_monmouth.Payments.Router.Routed.{
  OneDay, cost, pay-cost, pay-IsPermitted, url_amount_ignored,
}

payments : Unit {0}
unfolding fetch_with_payment_info log_activity includes starts_with text_eq is_native_token
    Wallet.validate_transaction Wallet.record_transaction Enforcer.validate
    Enforcer.is_session_expired Enforcer.is_address_blocked Enforcer.is_address_allowed
    Enforcer.maybe_reset_daily Enforcer.record_spend ◌+ℤ◌
payments = tt

abbrev alice : Text
alice = codes "0xA11CE"

abbrev wallet : MonmouthWallet
wallet = record {
  identity = record {
    agent_id = codes "scout";
    agent_type = research;
    name = codes "Scout";
    created_at = 0;
    did = none;
  };
  enforcer = record {
    policy = record {
      max_per_transaction = pos 5_000;
      max_per_day = pos 20_000;
      allowed_addresses = [];
      blocked_addresses = [];
      allowed_selectors = [];
      session_expiry = 400_000_000;
      can_deploy_contracts = false;
    };
    daily_spent = pos 0;
    last_spend_day = 0;
  };
  connected_address = some alice;
  listeners = [];
  monitoring = true;
  storage = none;
  delivered = [];
}

abbrev client : X402Client
client = record {
  wallet = wallet;
  auto_retry = true;
  max_auto_approve = pos 0;
  activity_log = none;
}

abbrev terms : Text → ℕ → PaymentRequired
terms token amount = record {
  recipient = codes "0xb0b";
  amount = pos amount;
  token = token;
  chain_id = 1;
  nonce = codes "n1";
  expiry = some (pos 1_000);
  description = none;
}

abbrev call : Text → ℕ → Surroundings
call token amount = record {
  first = FirstAnswer.asks (terms token amount);
  second = SecondAnswer.serves;
  approves = some false;
  signing = Signing.stub (codes "0xsig");
  asked_at = 1_000;
  created_at = 2_000;
  recorded_at = 3_000;
  demo_nonce = [];
}

abbrev url : Text
url = codes "https://shop.test/x"

abbrev paid_result : Text → ℕ → FetchResult
paid_result token amount =
    FetchResult.paid
      (record {
        required = terms token amount;
        signature = codes "0xsig";
        payer = alice;
        created_at = 2_000;
      })
      (record {
        payment_id = codes "n1";
        amount = pos amount;
        recipient = codes "0xb0b";
        token = token;
        timestamp = 3_000;
      })

-- With `maxAutoApprove` 0 the callback, which would refuse, is not asked.
pays_unasked :
    (fetch_with_payment_info url (call (codes "ETH") 4_000) client).0
    ≡ paid_result (codes "ETH") 4_000
unfolding payments
pays_unasked = refl

-- An amount of a token passes the limits as 0, and is charged in full against them.
token_unchecked :
    (fetch_with_payment_info url
      (call (codes "USDC") 1_000_000)
      client).1.wallet.enforcer.daily_spent
    ≡ pos 1_000_000
unfolding payments
token_unchecked = refl

refuses_too_much :
    (fetch_with_payment_info url (call (codes "ETH") 6_000) client).0
    ≡ FetchResult.thrown X402ErrorCode.guardrail_rejected
unfolding payments
refuses_too_much = refl

on_one_day : SameDay 0 (call (codes "ETH") 4_000)
on_one_day = record { asked = refl; created = refl; recorded = refl }

fetch-Charged_example :
    let (result, c') = fetch_with_payment_info url (call (codes "ETH") 4_000) client in
    spent_today 3_000 c'.wallet.enforcer ≡ spent_today 3_000 wallet.enforcer +ℤ charged result
fetch-Charged_example = fetch-Charged url (call (codes "ETH") 4_000) 3_000 client on_one_day

abbrev payload : PaymentPayload
payload = record {
  required = terms (codes "ETH") 4_000;
  signature = codes "0xsig";
  payer = alice;
  created_at = 2_000;
}

abbrev receipt : PaymentReceipt
receipt = record {
  payment_id = codes "n1";
  amount = pos 4_000;
  recipient = codes "0xb0b";
  token = codes "ETH";
  timestamp = 3_000;
}

fetch-Backed_example : Backed (call (codes "ETH") 4_000) client payload receipt
fetch-Backed_example =
    fetch-Backed url (call (codes "ETH") 4_000) client payload receipt (omega arith) pays_unasked

native_fetch-le-max_per_day_example :
    spent_today 2_000
      (fetch_with_payment_info url (call (codes "ETH") 4_000) client).1.wallet.enforcer
    ≤ℤ pos 20_000
unfolding is_native_token text_eq
native_fetch-le-max_per_day_example =
    native_fetch-le-max_per_day url (call (codes "ETH") 4_000) client payload receipt on_one_day
      refl pays_unasked

abbrev router : PaymentRouter
router = record {
  wallet = wallet;
  x402_client = some client;
  escrow_client = none;
  activity_log = none;
  default_escrow_duration = 86_400;
  has_sender = true;
  listeners = 5 ∷ [];
  delivered = [];
}

abbrev bob : Text
bob = codes "0x" ++ repeat 40 b'b'

abbrev request : Text → PaymentPurpose → PaymentRequest
request recipient purpose = record {
  recipient = recipient;
  amount = pos 1_000;
  token = none;
  purpose = purpose;
  description = none;
  service_id = none;
  escrow_duration = none;
}

abbrev outside : Outside
outside = record {
  started_at = 500;
  finished_at = 4_000;
  fetching = call (codes "ETH") 4_000;
  escrow_id = codes "escrow_1";
  sends = some (codes "0xfeed");
}

routers : Unit {0}
unfolding pay detect_protocol extract_address payments
routers = tt

router_tests :
    ((pay outside (request bob PaymentPurpose.direct) router).1.wallet.enforcer.daily_spent
      ≡ pos 1_000)
    × ((pay outside (request bob PaymentPurpose.escrow) router).0.success ≡ false)
    × ((pay outside (request url PaymentPurpose.direct) router).1.wallet.enforcer.daily_spent
        ≡ pos 4_000)
unfolding routers
router_tests = (refl, refl, refl)

one_day : OneDay 500 outside
one_day = record {
  started = refl;
  finished = refl;
  fetching = record { asked = refl; created = refl; recorded = refl };
}

pay-cost_example :
    let (result, r') = pay outside (request bob PaymentPurpose.direct) router in
    spent_today 500 r'.wallet.enforcer
    ≡ spent_today 500 wallet.enforcer +ℤ cost (request bob PaymentPurpose.direct) result
pay-cost_example = pay-cost 500 outside (request bob PaymentPurpose.direct) router one_day

pay-IsPermitted_example :
    IsPermitted 500 (request_intent (request bob PaymentPurpose.direct) bob) wallet.enforcer
unfolding routers
pay-IsPermitted_example =
    pay-IsPermitted outside (request bob PaymentPurpose.direct) bob router refl refl

url_amount_ignored_example :
    let asked = request url PaymentPurpose.api_access in
    let (result, r') = pay outside asked router in
    let (result', r'') = pay outside (record asked { amount = pos 1 }) router in
    (result' ≡ result) × (r''.wallet ≡ r'.wallet)
unfolding starts_with
url_amount_ignored_example =
    url_amount_ignored outside (request url PaymentPurpose.api_access) (pos 1) router refl
