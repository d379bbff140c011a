-- ===== src/Commerce/EscrowClient/Expiry.antt =====
-- The sweep of overdue escrows, and what the available actions say against what the requests do.
use reth_monmouth.Common.{
  ℕ, ◌≤◌, ◌<◌, ◌≡◌, ◌≢◌, refl, true, false, some, [], ◌∷◌, arith, any, Bool-cases, inl, inr,
}
use reth_monmouth.Common.Text.{text_eq, lower, same_folded_iff}
use reth_monmouth.Common.Assoc.{Assoc, lookup}
use reth_monmouth.Guardrails.Policy.{Address}
use reth_monmouth.Commerce.Types.{
  EscrowId, EscrowState, EscrowRecord, Action, get_available_actions,
}
use reth_monmouth.Commerce.EscrowClient.{EscrowClient, release_escrow, refund_escrow}
use reth_monmouth.Commerce.EscrowClient.Queries.{
  check_expired_escrows, is_overdue, expire, expire_all, overdue_ids,
}
use reth_monmouth.Commerce.EscrowClient.Calls.{is_success}
use reth_monmouth.Commerce.EscrowClient.Authority.{releases_iff, refunds_iff}
use reth_monmouth.Commerce.EscrowClient.Lifecycle.{sweep-escrows}

not_overdue : (now : ℕ) (e : EscrowRecord) → is_overdue now (expire now e) ≡ false
unfolding expire
not_overdue now e = ground arith

none_overdue : (now : ℕ) (m : Assoc EscrowRecord) → overdue_ids now (expire_all now m) ≡ []
unfolding overdue_ids expire_all
none_overdue now [] = refl
none_overdue now ((id, e) ∷ m) = ground (arith, not_overdue now e, none_overdue now m)

overdue_ids-count :
    (now : ℕ) (c : EscrowClient) → (check_expired_escrows now c).0 ≡ overdue_ids now c.escrows
unfolding check_expired_escrows
overdue_ids-count now c = refl

overdue_listed :
    (now : ℕ) (id : EscrowId) (m : Assoc EscrowRecord) (e : EscrowRecord)
    → lookup id m ≡ some e
    → is_overdue now e ≡ true
    → any (text_eq id) (overdue_ids now m) ≡ true
unfolding lookup overdue_ids
overdue_listed now id [] e found late = cc
overdue_listed now id ((j, x) ∷ m) e found late = elim (Bool-cases (text_eq id j)) [
  | inl here ↦ ground arith
  | inr other ↦ ground (arith, overdue_listed now id m e)
]

-- The sweep reports an escrow that is locked past its time, and after it no such escrow is left: a
-- second sweep at the same time reports nothing.
pub check_expired_lem :
    (now : ℕ) (id : EscrowId) (e : EscrowRecord) (c : EscrowClient)
    → lookup id c.escrows ≡ some e
    → e.state ≡ EscrowState.locked
    → e.expires_at < now
    → let (expired, c') = check_expired_escrows now c in
      (any (text_eq id) expired ≡ true) × ((check_expired_escrows now c').0 ≡ [])
check_expired_lem now id e c found locked late = (
  rw (overdue_ids-count now c) (overdue_listed now id c.escrows e found (ground arith)),
  rw (overdue_ids-count now (check_expired_escrows now c).1, sweep-escrows now c)
      (none_overdue now c.escrows),
)

-- Of an escrow that is locked and not yet due, the actions on offer to a payer who is not also its
-- recipient are release and dispute; and yet the refund, which is not offered, succeeds.
pub refund_before_expiry :
    (now : ℕ) (id : EscrowId) (c : EscrowClient) (e : EscrowRecord) (caller : Address)
    → lookup id c.escrows ≡ some e
    → e.state ≡ EscrowState.locked
    → now < e.expires_at
    → c.wallet.connected_address ≡ some caller
    → lower caller ≡ lower e.payer
    → lower caller ≢ lower e.recipient
    → (get_available_actions now e caller ≡ Action.release ∷ Action.dispute ∷ [])
      × (is_success (refund_escrow now id c).0 ≡ true)
unfolding get_available_actions
refund_before_expiry now id c e caller found locked early here payer other = (
  ground (arith, (same_folded_iff caller e.payer).1 payer, (same_folded_iff caller e.recipient).0),
  (refunds_iff now id c).1 (e, found, locked, (caller, here, payer)),
)

-- Of an escrow that is locked and due, only the refund is on offer to the payer; and yet the release,
-- which is not offered, succeeds.
pub release_after_expiry :
    (now : ℕ) (id : EscrowId) (c : EscrowClient) (e : EscrowRecord) (caller : Address)
    → lookup id c.escrows ≡ some e
    → e.state ≡ EscrowState.locked
    → e.expires_at ≤ now
    → c.wallet.connected_address ≡ some caller
    → lower caller ≡ lower e.payer
    → (get_available_actions now e caller ≡ Action.refund ∷ [])
      × (is_success (release_escrow now id c).0 ≡ true)
unfolding get_available_actions
release_after_expiry now id c e caller found locked late here payer = (
  ground (arith, (same_folded_iff caller e.payer).1 payer),
  (releases_iff now id c).1 (e, found, locked, (caller, here, payer)),
)
