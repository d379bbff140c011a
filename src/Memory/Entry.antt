-- ===== src/Memory/Entry.antt =====
-- The entry types of wallet-sdk/src/memory/types.ts, over any type of payload (`data: unknown`).
use reth_monmouth.Common.{ℕ, ◌≡◌, refl, Bool, true, false, Option}
use reth_monmouth.Common.Text.{Text}
use reth_monmouth.Guardrails.Policy.{Hex}

pub data ActivityActionType : Type 0 where
  transaction signature decision error : ActivityActionType

pub data SyncStatus : Type 0 where
  pending synced conflict : SyncStatus

pub record ActivityLogEntry (D : Type 0) : Type 0 where
  pub id : Option ℕ
  pub agent_id : Text
  pub action_type : ActivityActionType
  pub tx_hash : Option Hex
  pub timestamp : ℕ
  pub payload : D
  pub sync_status : Option SyncStatus
  pub version : Option ℕ

-- `Omit<ActivityLogEntry, 'id' | 'timestamp' | 'syncStatus' | 'version'>`
pub record NewEntry (D : Type 0) : Type 0 where
  pub agent_id : Text
  pub action_type : ActivityActionType
  pub tx_hash : Option Hex
  pub payload : D

abbrev pub same_action : ActivityActionType → ActivityActionType → Bool
same_action ActivityActionType.transaction ActivityActionType.transaction = true
same_action ActivityActionType.signature ActivityActionType.signature = true
same_action ActivityActionType.decision ActivityActionType.decision = true
same_action ActivityActionType.error ActivityActionType.error = true
same_action _ _ = false

abbrev pub same_status : SyncStatus → SyncStatus → Bool
same_status SyncStatus.pending SyncStatus.pending = true
same_status SyncStatus.synced SyncStatus.synced = true
same_status SyncStatus.conflict SyncStatus.conflict = true
same_status _ _ = false

-- `e.syncStatus === status`
abbrev pub has_status : SyncStatus → Option SyncStatus → Bool
has_status s Option.none = false
has_status s (Option.some t) = same_status t s

pub same_action_self : (a : ActivityActionType) → same_action a a ≡ true
same_action_self ActivityActionType.transaction = refl
same_action_self _ = refl
