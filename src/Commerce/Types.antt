-- ===== src/Commerce/Types.antt =====
-- wallet-sdk/src/commerce/types.ts. A record is over the type of its amounts: `bigint` in memory, a
-- text in storage. `metadata` and `evidence`, which no code reads, are left out.
use reth_monmouth.Common.{
  ℕ, Bool, true, false, Option, List, [], ◌∷◌, ◌++◌, ◌&&◌, not, ltb, leb, if◌then◌else◌,
}
use reth_monmouth.Common.Int.{ℤ}
use reth_monmouth.Common.Text.{Text, same_folded}
use reth_monmouth.Guardrails.Policy.{Address, Hex}

abbrev pub EscrowId : Type 0
EscrowId = Text

pub data EscrowState : Type 0 where
  pending locked released refunded disputed resolved expired : EscrowState

abbrev pub is_locked : EscrowState → Bool
is_locked EscrowState.locked = true
is_locked _ = false

abbrev pub is_disputed : EscrowState → Bool
is_disputed EscrowState.disputed = true
is_disputed _ = false

-- `e.state === state`
abbrev pub same_state : EscrowState → EscrowState → Bool
same_state EscrowState.pending EscrowState.pending = true
same_state EscrowState.locked EscrowState.locked = true
same_state EscrowState.released EscrowState.released = true
same_state EscrowState.refunded EscrowState.refunded = true
same_state EscrowState.disputed EscrowState.disputed = true
same_state EscrowState.resolved EscrowState.resolved = true
same_state EscrowState.expired EscrowState.expired = true
same_state _ _ = false

pub data Winner : Type 0 where
  payer recipient : Winner

pub record CreateEscrowParams : Type 0 where
  pub recipient : Address
  pub amount : ℤ
  pub token : Option Text
  pub description : Text
  pub duration_seconds : ℕ
  pub service_id : Option Text
  pub arbiter : Option Address

pub record Resolution (N : Type 0) : Type 0 where
  pub winner : Winner
  pub amount : N
  pub reason : Text

pub record EscrowRecordOf (N : Type 0) : Type 0 where
  pub id : EscrowId
  pub payer : Address
  pub recipient : Address
  pub amount : N
  pub token : Text
  pub description : Text
  pub state : EscrowState
  pub created_at : ℕ
  pub expires_at : ℕ
  pub released_at : Option ℕ
  pub refunded_at : Option ℕ
  pub tx_hash : Option Hex
  pub service_id : Option Text
  pub arbiter : Option Address
  pub dispute_reason : Option Text
  pub resolution : Option (Resolution N)

abbrev pub EscrowRecord : Type 0
EscrowRecord = EscrowRecordOf ℤ

pub record DisputeParams : Type 0 where
  pub escrow_id : EscrowId
  pub reason : Text

pub record DisputeResolution : Type 0 where
  pub escrow_id : EscrowId
  pub winner : Winner
  pub amount : ℤ
  pub reason : Text
  pub resolved_by : Address
  pub resolved_at : ℕ

-- The codes that the client throws; the union in the source has more.
pub data EscrowErrorCode : Type 0 where
  not_found invalid_state unauthorized : EscrowErrorCode

pub data EscrowEvent : Type 0 where
  escrow_created : EscrowRecord → EscrowEvent
  escrow_released escrow_refunded : EscrowId → Hex → EscrowEvent
  escrow_disputed : EscrowId → Text → EscrowEvent
  escrow_resolved : EscrowId → DisputeResolution → EscrowEvent
  escrow_expired : EscrowId → EscrowEvent

pub data Action : Type 0 where
  release refund dispute : Action

unfoldable pub is_escrow_active : ℕ → EscrowRecord → Bool
is_escrow_active now escrow = is_locked escrow.state && ltb now escrow.expires_at

unfoldable pub is_escrow_expired : ℕ → EscrowRecord → Bool
is_escrow_expired now escrow = leb escrow.expires_at now && is_locked escrow.state

unfoldable pub get_available_actions : ℕ → EscrowRecord → Address → List Action
get_available_actions now escrow user =
    if not (is_locked escrow.state)
    then []
    else if leb escrow.expires_at now
    then (if same_folded user escrow.payer then Action.refund ∷ [] else [])
    else (if same_folded user escrow.payer then Action.release ∷ Action.dispute ∷ [] else [])
      ++ (if same_folded user escrow.recipient then Action.dispute ∷ [] else [])
