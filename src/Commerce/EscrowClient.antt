-- ===== src/Commerce/EscrowClient.antt =====
-- wallet-sdk/src/commerce/EscrowClient.ts. A method takes the clock's reading (one for a call, which
-- awaits nothing) and, for a creation, the id that `generateEscrowId` draws. It returns how it ended,
-- a result or a thrown code, and the new client. Storage keeps what the JSON text encodes.
pub mod Disputes
pub mod Queries
pub mod Calls
pub mod Cleared
pub mod Lifecycle
pub mod History
pub mod Authority
pub mod Expiry
use mathlib.Core.Option
use reth_monmouth.Common.{
  ℕ, ◌+◌, ◌-◌, ◌*◌, Bool, true, false, not, ◌&&◌, ◌||◌, Option, none, some, List, [], ◌∷◌, ◌++◌,
  map, ltb, if◌then◌else◌, or_else, filter, is_empty, length, drop, repeat,
}
use reth_monmouth.Common.Int.{ℤ}
use reth_monmouth.Common.Text.{Text, codes, same_folded, starts_with}
use reth_monmouth.Common.Assoc.{Assoc, lookup, insert, values}
use reth_monmouth.Common.Decimal.{text_of_bigint, bigint_of_text}
use reth_monmouth.Guardrails.Policy.{Address, Hex, Reason, TransactionIntent}
use reth_monmouth.Wallet
use reth_monmouth.Wallet.{MonmouthWallet}
use reth_monmouth.Memory.Entry.{ActivityActionType}
use reth_monmouth.Memory.ActivityLog.{ActivityLog, log}
use reth_monmouth.Commerce.Types.{
  EscrowId, EscrowState, is_locked, is_disputed, same_state, Winner, CreateEscrowParams, Resolution,
  EscrowRecordOf, EscrowRecord, DisputeParams, DisputeResolution, EscrowErrorCode, EscrowEvent,
  Action, is_escrow_active, is_escrow_expired, get_available_actions,
}

-- The payloads that the client logs.
pub data EscrowLog : Type 0 where
  created : EscrowId → Address → ℤ → Text → EscrowLog
  released refunded : EscrowId → Address → ℤ → EscrowLog
  disputed : EscrowId → Text → Address → EscrowLog
  resolved : EscrowId → Winner → ℤ → Text → EscrowLog

-- `storage` is `none` without `localStorage`, and `some none` before the first save.
pub record EscrowClient : Type 0 where
  pub wallet : MonmouthWallet
  pub default_arbiter : Option Address
  pub escrows : Assoc EscrowRecord
  pub listeners : List ℕ
  pub activity_log : Option (ActivityLog EscrowLog)
  pub storage : Option (Option (List (EscrowRecordOf Text)))
  pub delivered : List (ℕ × EscrowEvent)

pub record EscrowResult : Type 0 where
  pub success : Bool
  pub escrow_id : EscrowId
  pub tx_hash : Option Hex
  pub error : Option Reason
  pub escrow : Option EscrowRecord

-- How a call ends.
pub data Outcome : Type 0 where
  returned : EscrowResult → Outcome
  thrown : EscrowErrorCode → Outcome

abbrev pub succeeded : EscrowId → Option Hex → EscrowRecord → Outcome
succeeded id tx_hash escrow = Outcome.returned (record {
  success = true;
  escrow_id = id;
  tx_hash = tx_hash;
  error = none;
  escrow = some escrow;
})

-- A record with its amounts taken over by a function.
abbrev map_amounts : {M N : Type 0} → (M → N) → EscrowRecordOf M → EscrowRecordOf N
map_amounts f e = record {
  id = e.id;
  payer = e.payer;
  recipient = e.recipient;
  amount = f e.amount;
  token = e.token;
  description = e.description;
  state = e.state;
  created_at = e.created_at;
  expires_at = e.expires_at;
  released_at = e.released_at;
  refunded_at = e.refunded_at;
  tx_hash = e.tx_hash;
  service_id = e.service_id;
  arbiter = e.arbiter;
  dispute_reason = e.dispute_reason;
  resolution =
      Option.map (λ r. record { winner = r.winner; amount = f r.amount; reason = r.reason })
        e.resolution;
}

unfoldable pub persist_escrows : EscrowClient → EscrowClient
persist_escrows c = record c {
  storage = Option.map (λ _. some (map (map_amounts text_of_bigint) (values c.escrows))) c.storage;
}

unfoldable pub emit : EscrowEvent → EscrowClient → EscrowClient
emit event c = record c { delivered = c.delivered ++ map (λ l. (l, event)) c.listeners }

unfoldable pub log_activity : ℕ → ActivityActionType → EscrowLog → EscrowClient → EscrowClient
log_activity now action payload c = record c {
  activity_log =
      Option.map
        (λ l.
          (log now
            (record {
              agent_id = c.wallet.identity.agent_id;
              action_type = action;
              tx_hash = none;
              payload = payload;
            })
            l).1)
        c.activity_log;
}

-- A placeholder hash: `0x` and 64 times a letter.
abbrev pub placeholder : ℕ → Hex
placeholder letter = codes "0x" ++ repeat 64 letter

-- `0x${escrowId.replace('escrow_', '')}${'0'.repeat(40)}`, for an id that begins so.
simulated_hash : EscrowId → Hex
simulated_hash id =
    codes "0x" ++ (if starts_with (codes "escrow_") id then drop 7 id else id) ++ repeat 40 b'0'

-- Stores a changed record, persists, logs and tells the listeners.
unfoldable pub publish :
    ℕ
    → EscrowId
    → EscrowRecord
    → ActivityActionType
    → EscrowLog
    → EscrowEvent
    → EscrowClient
    → EscrowClient
unfolding persist_escrows log_activity emit
publish now id escrow action payload event c = emit event (
    log_activity now action payload
      (persist_escrows (record c { escrows = insert id escrow c.escrows })))

-- `text || ...`: the empty text counts as missing.
abbrev named : Option Text → Option Text
named (some (c ∷ s)) = some (c ∷ s)
named _ = none

-- The record that `createEscrow` makes.
new_escrow : ℕ → EscrowId → Address → CreateEscrowParams → Option Address → EscrowRecord
new_escrow now id payer params default_arbiter = record {
  id = id;
  payer = payer;
  recipient = params.recipient;
  amount = params.amount;
  token = or_else (named params.token) (codes "ETH");
  description = params.description;
  state = EscrowState.locked;
  created_at = now;
  expires_at = now + params.duration_seconds * 1000;
  released_at = none;
  refunded_at = none;
  tx_hash = none;
  service_id = params.service_id;
  arbiter = elim (named params.arbiter) [ none ↦ default_arbiter | some a ↦ some a ];
  dispute_reason = none;
  resolution = none;
}

abbrev pub escrow_intent : CreateEscrowParams → TransactionIntent
escrow_intent params = record {
  to = some params.recipient;
  value = params.amount;
  calldata = none;
  is_contract_deploy = false;
}

-- The rest of `createEscrow`, after the guardrails have allowed it.
unfoldable pub lock_funds :
    ℕ → EscrowId → Address → CreateEscrowParams → EscrowClient → Outcome × EscrowClient
unfolding persist_escrows log_activity emit new_escrow simulated_hash
lock_funds now id payer params c =
    let escrow = new_escrow now id payer params c.default_arbiter in
    let stored = persist_escrows (record c { escrows = insert id escrow c.escrows }) in
    let paid = record stored {
      wallet = Wallet.record_transaction now (placeholder b'e') params.amount stored.wallet;
    } in
    (
      succeeded id (some (simulated_hash id)) escrow,
      emit (EscrowEvent.escrow_created escrow) (
          log_activity now ActivityActionType.transaction
            (EscrowLog.created id params.recipient params.amount params.description) paid),
    )

unfoldable pub create_escrow :
    ℕ → EscrowId → CreateEscrowParams → EscrowClient → Outcome × EscrowClient
create_escrow now id params c = elim c.wallet.connected_address [
  | none ↦ (Outcome.thrown EscrowErrorCode.unauthorized, c)
  | some payer ↦
      let (validation, wallet) = Wallet.validate_transaction now (escrow_intent params) c.wallet in
      if validation.allowed
      then lock_funds now id payer params (record c { wallet = wallet })
      else (
        Outcome.returned (record {
          success = false;
          escrow_id = [];
          tx_hash = none;
          error = validation.reason;
          escrow = none;
        }),
        record c { wallet = wallet },
      )
]

-- `caller && caller.toLowerCase() === address.toLowerCase()`
abbrev pub is_caller : Option Address → Address → Bool
is_caller none address = false
is_caller (some caller) address = same_folded caller address

unfoldable pub release_escrow : ℕ → EscrowId → EscrowClient → Outcome × EscrowClient
release_escrow now id c = elim (lookup id c.escrows) [
  | none ↦ (Outcome.thrown EscrowErrorCode.not_found, c)
  | some escrow ↦
      if not (is_caller c.wallet.connected_address escrow.payer)
      then (Outcome.thrown EscrowErrorCode.unauthorized, c)
      else if not (is_locked escrow.state)
      then (Outcome.thrown EscrowErrorCode.invalid_state, c)
      else let hash = placeholder b'r' in
        let done = record escrow {
          state = EscrowState.released;
          released_at = some now;
          tx_hash = some hash;
        } in
        (
          succeeded id (some hash) done,
          publish now id done ActivityActionType.transaction
              (EscrowLog.released id escrow.recipient escrow.amount)
              (EscrowEvent.escrow_released id hash) c,
        )
]

unfoldable pub refund_escrow : ℕ → EscrowId → EscrowClient → Outcome × EscrowClient
refund_escrow now id c = elim (lookup id c.escrows) [
  | none ↦ (Outcome.thrown EscrowErrorCode.not_found, c)
  | some escrow ↦
      if not (is_caller c.wallet.connected_address escrow.payer)
      then (Outcome.thrown EscrowErrorCode.unauthorized, c)
      else if not (is_locked escrow.state)
      then (Outcome.thrown EscrowErrorCode.invalid_state, c)
      else let hash = placeholder b'f' in
        let done = record escrow {
          state = EscrowState.refunded;
          refunded_at = some now;
          tx_hash = some hash;
        } in
        (
          succeeded id (some hash) done,
          publish now id done ActivityActionType.transaction
              (EscrowLog.refunded id escrow.payer escrow.amount)
              (EscrowEvent.escrow_refunded id hash) c,
        )
]
