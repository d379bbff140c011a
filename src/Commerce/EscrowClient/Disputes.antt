-- ===== src/Commerce/EscrowClient/Disputes.antt =====
-- `disputeEscrow` and `resolveDispute` of wallet-sdk/src/commerce/EscrowClient.ts.
use reth_monmouth.Common.{ℕ, Bool, not, ◌||◌, none, some, if◌then◌else◌}
use reth_monmouth.Common.Text.{same_folded}
use reth_monmouth.Common.Assoc.{lookup}
use reth_monmouth.Guardrails.Policy.{Address, given}
use reth_monmouth.Memory.Entry.{ActivityActionType}
use reth_monmouth.Commerce.Types.{
  EscrowState, is_locked, is_disputed, EscrowRecord, DisputeParams, DisputeResolution,
  EscrowErrorCode, EscrowEvent,
}
use reth_monmouth.Commerce.EscrowClient.{
  EscrowClient, EscrowLog, Outcome, succeeded, publish, placeholder,
}

abbrev pub is_party : Address → EscrowRecord → Bool
is_party caller escrow = same_folded caller escrow.payer || same_folded caller escrow.recipient

unfoldable pub dispute_escrow : ℕ → DisputeParams → EscrowClient → Outcome × EscrowClient
dispute_escrow now params c = elim (lookup params.escrow_id c.escrows) [
  | none ↦ (Outcome.thrown EscrowErrorCode.not_found, c)
  | some escrow ↦ elim c.wallet.connected_address [
    | none ↦ (Outcome.thrown EscrowErrorCode.unauthorized, c)
    | some caller ↦
        if not (is_party caller escrow)
        then (Outcome.thrown EscrowErrorCode.unauthorized, c)
        else if not (is_locked escrow.state)
        then (Outcome.thrown EscrowErrorCode.invalid_state, c)
        else let done = record escrow {
          state = EscrowState.disputed;
          dispute_reason = some params.reason;
        } in
          (
            succeeded params.escrow_id none done,
            publish now params.escrow_id done ActivityActionType.decision
                (EscrowLog.disputed params.escrow_id params.reason caller)
                (EscrowEvent.escrow_disputed params.escrow_id params.reason) c,
          )
  ]
]

-- `escrow.arbiter && caller !== arbiter`, up to case: only a recorded arbiter is compared.
abbrev pub is_wrong_arbiter : Address → EscrowRecord → Bool
is_wrong_arbiter caller escrow = given escrow.arbiter (λ a. not (same_folded caller a))

unfoldable pub resolve_dispute : ℕ → DisputeResolution → EscrowClient → Outcome × EscrowClient
resolve_dispute now r c = elim (lookup r.escrow_id c.escrows) [
  | none ↦ (Outcome.thrown EscrowErrorCode.not_found, c)
  | some escrow ↦ elim c.wallet.connected_address [
    | none ↦ (Outcome.thrown EscrowErrorCode.unauthorized, c)
    | some caller ↦
        if is_wrong_arbiter caller escrow
        then (Outcome.thrown EscrowErrorCode.unauthorized, c)
        else if not (is_disputed escrow.state)
        then (Outcome.thrown EscrowErrorCode.invalid_state, c)
        else let hash = placeholder b'd' in
          let done = record escrow {
            state = EscrowState.resolved;
            resolution = some (record { winner = r.winner; amount = r.amount; reason = r.reason });
            tx_hash = some hash;
          } in
          (
            succeeded r.escrow_id (some hash) done,
            publish now r.escrow_id done ActivityActionType.decision
                (EscrowLog.resolved r.escrow_id r.winner r.amount r.reason)
                (EscrowEvent.escrow_resolved r.escrow_id r) c,
          )
  ]
]
