-- ===== src/Tests/Commerce.antt =====
-- Tests of the escrow client (wallet-sdk/src/commerce).
use reth_monmouth.Common.{
  ℕ, ◌≡◌, ◌≢◌, ◌↔◌, refl, true, false, none, some, List, [], ◌∷◌, arith, any, if◌then◌else◌,
}
use reth_monmouth.Common.Int.{pos}
use reth_monmouth.Common.Text.{Text, codes, text_eq, lower, same_folded}
use reth_monmouth.Common.Assoc.{lookup, insert}
use reth_monmouth.Guardrails.Policy.{research}
use reth_monmouth.Wallet.{MonmouthWallet}
use reth_monmouth.Commerce.Types.{
  EscrowId, EscrowState, Winner, CreateEscrowParams, EscrowRecord, EscrowErrorCode,
  is_escrow_active, is_escrow_expired,
}
use reth_monmouth.Commerce.EscrowClient.{
  EscrowClient, Outcome, create_escrow, release_escrow, refund_escrow,
}
use reth_monmouth.Commerce.EscrowClient.Disputes.{dispute_escrow, resolve_dispute}
use reth_monmouth.Commerce.EscrowClient.Queries.{check_expired_escrows}
use reth_monmouth.Commerce.EscrowClient.Calls.{
  releases, disputes, request, Event, requests, sweeps, run, is_success,
}
use reth_monmouth.Commerce.EscrowClient.Cleared.{HasFate, run-HasFate}
use reth_monmouth.Commerce.EscrowClient.Authority.{MayDo, request_iff, request_refused, is_thrown}
use reth_monmouth.Commerce.EscrowClient.Expiry.{check_expired_lem}

escrows : Unit {0}
unfolding request run lookup insert lower same_folded create_escrow release_escrow refund_escrow
    dispute_escrow resolve_dispute check_expired_escrows is_escrow_active is_escrow_expired
escrows = tt

abbrev alice : Text
alice = codes "0xA11CE"

abbrev bob : Text
bob = codes "0xb0b"

abbrev wallet : MonmouthWallet
wallet = record {
  identity = record {
    agent_id = codes "scout";
    agent_type = research;
    name = codes "Scout";
    created_at = 0;
    did = none;
  };
  enforcer = record {
    policy = record {
      max_per_transaction = pos 5_000;
      max_per_day = pos 20_000;
      allowed_addresses = [];
      blocked_addresses = [];
      allowed_selectors = [];
      session_expiry = 400_000_000;
      can_deploy_contracts = false;
    };
    daily_spent = pos 0;
    last_spend_day = 0;
  };
  connected_address = some alice;
  listeners = [];
  monitoring = true;
  storage = none;
  delivered = [];
}

abbrev escrow : EscrowState → EscrowRecord
escrow state = record {
  id = codes "escrow_1";
  payer = codes "0xa11ce";
  recipient = bob;
  amount = pos 1_000;
  token = codes "ETH";
  description = codes "analysis";
  state = state;
  created_at = 0;
  expires_at = 10_000;
  released_at = none;
  refunded_at = none;
  tx_hash = none;
  service_id = none;
  arbiter = none;
  dispute_reason = none;
  resolution = none;
}

-- A client that holds one escrow.
abbrev client : EscrowState → EscrowClient
client state = record {
  wallet = wallet;
  default_arbiter = none;
  escrows = (codes "escrow_1", escrow state) ∷ [];
  listeners = 3 ∷ [];
  activity_log = none;
  storage = some none;
  delivered = [];
}

abbrev id : EscrowId
id = codes "escrow_1"

abbrev params : CreateEscrowParams
params = record {
  recipient = bob;
  amount = pos 9_000;
  token = none;
  description = codes "too much";
  duration_seconds = 60;
  service_id = none;
  arbiter = none;
}

escrow_tests :
    (is_success (release_escrow 5_000 id (client EscrowState.locked)).0 ≡ true)
    × ((release_escrow 5_000 id (client EscrowState.released)).0
        ≡ Outcome.thrown EscrowErrorCode.invalid_state)
    × ((check_expired_escrows 20_000 (client EscrowState.locked)).0 ≡ id ∷ [])
unfolding escrows
escrow_tests = (refl, refl, refl)

-- The amount of a resolution may exceed the escrow's, and without an arbiter the payer resolves.
unbounded_resolution :
    is_success
      (resolve_dispute 5_000
        (record {
          escrow_id = id;
          winner = Winner.payer;
          amount = pos 1_000_000;
          reason = codes "mine";
          resolved_by = alice;
          resolved_at = 5_000;
        })
        (client EscrowState.disputed)).0
    ≡ true
unfolding escrows
unbounded_resolution = refl

abbrev history : List (ℕ × Event)
history =
    (5_000, requests (disputes (record { escrow_id = id; reason = codes "late" })))
    ∷ (20_000, sweeps)
    ∷ []

run-HasFate_example :
    HasFate id (escrow EscrowState.locked) history (run history (client EscrowState.locked))
unfolding lookup
run-HasFate_example =
    run-HasFate id (escrow EscrowState.locked) history (client EscrowState.locked) (tt, (tt, tt))
      refl

request_iff_example :
    (is_success (request 5_000 (releases id) (client EscrowState.locked)).0 ≡ true)
    ↔ MayDo 5_000 (releases id) (client EscrowState.locked)
request_iff_example = request_iff 5_000 (releases id) (client EscrowState.locked)

request_refused_example :
    let (o, c') = request 5_000 (releases id) (client EscrowState.refunded) in
    if is_thrown o
    then c' ≡ client EscrowState.refunded
    else (c' ≡ record (client EscrowState.refunded) { wallet = c'.wallet })
unfolding escrows
request_refused_example = request_refused 5_000 (releases id) (client EscrowState.refunded) refl

check_expired_lem_example :
    let (expired, c') = check_expired_escrows 20_000 (client EscrowState.locked) in
    (any (text_eq id) expired ≡ true) × ((check_expired_escrows 20_000 c').0 ≡ [])
unfolding lookup
check_expired_lem_example =
    check_expired_lem 20_000 id (escrow EscrowState.locked) (client EscrowState.locked) refl refl
      (omega arith)

bob_is_another : lower alice ≢ lower bob
unfolding lower
bob_is_another e = cc
