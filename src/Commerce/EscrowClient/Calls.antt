-- ===== src/Commerce/EscrowClient/Calls.antt =====
-- The calls that change an escrow client, one after another. Between them the wallet, which the
-- client shares with the rest of the program, may become any other.
use reth_monmouth.Common.{ℕ, Bool, false, List, [], ◌∷◌}
use reth_monmouth.Wallet.{MonmouthWallet}
use reth_monmouth.Memory.ActivityLog.{ActivityLog}
use reth_monmouth.Commerce.Types.{EscrowId, CreateEscrowParams, DisputeParams, DisputeResolution}
use reth_monmouth.Commerce.EscrowClient.{
  EscrowLog, EscrowClient, Outcome, create_escrow, release_escrow, refund_escrow,
}
use reth_monmouth.Commerce.EscrowClient.Disputes.{dispute_escrow, resolve_dispute}
use reth_monmouth.Commerce.EscrowClient.Queries.{
  check_expired_escrows, clear_escrows, on, off, set_activity_log,
}

-- The calls that end with an outcome.
pub data Request : Type 0 where
  creates : EscrowId → CreateEscrowParams → Request
  releases refunds : EscrowId → Request
  disputes : DisputeParams → Request
  resolves : DisputeResolution → Request

unfoldable pub request : ℕ → Request → EscrowClient → Outcome × EscrowClient
request now (creates id params) c = create_escrow now id params c
request now (releases id) c = release_escrow now id c
request now (refunds id) c = refund_escrow now id c
request now (disputes params) c = dispute_escrow now params c
request now (resolves r) c = resolve_dispute now r c

pub data Event : Type 0 where
  requests : Request → Event
  sweeps clears : Event
  subscribes unsubscribes : ℕ → Event
  logs_to : ActivityLog EscrowLog → Event
  wallet_becomes : MonmouthWallet → Event

unfoldable pub step : ℕ × Event → EscrowClient → EscrowClient
unfolding request
step (now, requests r) c = (request now r c).1
step (now, sweeps) c = (check_expired_escrows now c).1
step (now, clears) c = clear_escrows c
step (now, subscribes i) c = on i c
step (now, unsubscribes i) c = off i c
step (now, logs_to log) c = set_activity_log log c
step (now, wallet_becomes w) c = record c { wallet = w }

unfoldable pub run : List (ℕ × Event) → EscrowClient → EscrowClient
unfolding step
run [] c = c
run (e ∷ es) c = run es (step e c)

abbrev pub is_success : Outcome → Bool
is_success (Outcome.returned r) = r.success
is_success (Outcome.thrown _) = false
