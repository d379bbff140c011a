-- ===== src/Commerce/EscrowClient/Queries.antt =====
-- The queries, the expiry sweep and the storage of wallet-sdk/src/commerce/EscrowClient.ts.
use mathlib.Core.Option
use reth_monmouth.Common.{
  with_listener, without_listener, ◌>>=◌, ℕ, ◌-◌, Bool, ◌&&◌, Option, none, some, List, [], ◌∷◌,
  ltb, is_empty, if◌then◌else◌, filter, length,
}
use reth_monmouth.Common.Int.{ℤ}
use reth_monmouth.Common.Text.{Text}
use reth_monmouth.Common.Assoc.{Assoc, lookup, insert, values}
use reth_monmouth.Common.Decimal.{bigint_of_text}
use reth_monmouth.Wallet.{MonmouthWallet}
use reth_monmouth.Memory.ActivityLog.{ActivityLog}
use reth_monmouth.Guardrails.Policy.{Address}
use reth_monmouth.Commerce.Types.{
  EscrowId, EscrowState, is_locked, same_state, Resolution, EscrowRecordOf, EscrowRecord,
  EscrowEvent, Action, is_escrow_active, is_escrow_expired, get_available_actions,
}
use reth_monmouth.Commerce.EscrowClient.{EscrowClient, EscrowLog, persist_escrows, emit}
use reth_monmouth.Commerce.EscrowClient.Disputes.{is_party}

pub record EscrowStatus : Type 0 where
  pub escrow : EscrowRecord
  pub time_remaining : ℕ
  pub is_active : Bool
  pub is_expired : Bool
  pub available_actions : List Action

-- `none` is the thrown `NOT_FOUND`; `Math.max(0, expiresAt - now)`.
unfoldable pub get_escrow_status : ℕ → EscrowId → EscrowClient → Option EscrowStatus
unfolding is_escrow_active is_escrow_expired get_available_actions
get_escrow_status now id c = elim (lookup id c.escrows) [
  | none ↦ none
  | some escrow ↦ some (record {
    escrow = escrow;
    time_remaining = if ltb now escrow.expires_at then escrow.expires_at - now else 0;
    is_active = is_escrow_active now escrow;
    is_expired = is_escrow_expired now escrow;
    available_actions = elim c.wallet.connected_address [
      | none ↦ []
      | some caller ↦ get_available_actions now escrow caller
    ];
  })
]

unfoldable pub get_my_escrows : EscrowClient → List EscrowRecord
get_my_escrows c = elim c.wallet.connected_address [
  | none ↦ []
  | some caller ↦ filter (λ e. is_party caller e) (values c.escrows)
]

unfoldable pub get_escrows_by_state : EscrowState → EscrowClient → List EscrowRecord
get_escrows_by_state state c = filter (λ e. same_state e.state state) (values c.escrows)

-- The test of the sweep: locked, and past its time.
abbrev pub is_overdue : ℕ → EscrowRecord → Bool
is_overdue now escrow = is_locked escrow.state && ltb escrow.expires_at now

unfoldable pub expire : ℕ → EscrowRecord → EscrowRecord
expire now escrow =
    if is_overdue now escrow then record escrow { state = EscrowState.expired } else escrow

-- The loop of `checkExpiredEscrows`, over the map in place: `set` keeps an entry where it is.
unfoldable pub expire_all : ℕ → Assoc EscrowRecord → Assoc EscrowRecord
unfolding expire
expire_all now [] = []
expire_all now ((id, escrow) ∷ m) = (id, expire now escrow) ∷ expire_all now m

unfoldable pub overdue_ids : ℕ → Assoc EscrowRecord → List EscrowId
overdue_ids now [] = []
overdue_ids now ((id, escrow) ∷ m) =
    let rest = overdue_ids now m in if is_overdue now escrow then id ∷ rest else rest

unfoldable pub emit_expired : List EscrowId → EscrowClient → EscrowClient
unfolding emit
emit_expired [] c = c
emit_expired (id ∷ ids) c = emit_expired ids (emit (EscrowEvent.escrow_expired id) c)

unfoldable pub check_expired_escrows : ℕ → EscrowClient → List EscrowId × EscrowClient
unfolding expire_all overdue_ids emit_expired persist_escrows
check_expired_escrows now c =
    let expired = overdue_ids now c.escrows in
    let swept = emit_expired expired (record c { escrows = expire_all now c.escrows }) in
    (expired, if is_empty expired then swept else persist_escrows swept)

-- A stored record with its amounts read; `none` is a `SyntaxError`.
read_resolution : Option (Resolution Text) → Option (Option (Resolution ℤ))
read_resolution none = some none
read_resolution (some r) =
    Option.map (λ n. some (record { winner = r.winner; amount = n; reason = r.reason }))
      (bigint_of_text r.amount)

unfoldable pub read_escrow : EscrowRecordOf Text → Option EscrowRecord
unfolding read_resolution
read_escrow e = do
  amount ← bigint_of_text e.amount
  resolution ← read_resolution e.resolution
  some (record {
    id = e.id;
    payer = e.payer;
    recipient = e.recipient;
    amount = amount;
    token = e.token;
    description = e.description;
    state = e.state;
    created_at = e.created_at;
    expires_at = e.expires_at;
    released_at = e.released_at;
    refunded_at = e.refunded_at;
    tx_hash = e.tx_hash;
    service_id = e.service_id;
    arbiter = e.arbiter;
    dispute_reason = e.dispute_reason;
    resolution = resolution;
  })

-- The loop of `restoreEscrows`: an item that cannot be read ends it, and what was set stays.
unfoldable pub restore_items : List (EscrowRecordOf Text) → Assoc EscrowRecord → Assoc EscrowRecord
unfolding read_escrow
restore_items [] m = m
restore_items (item ∷ items) m = elim (read_escrow item) [
  | none ↦ m
  | some escrow ↦ restore_items items (insert item.id escrow m)
]

unfoldable pub restore_escrows : EscrowClient → EscrowClient
unfolding restore_items
restore_escrows c = elim c.storage [
  | none ↦ c
  | some stored ↦ elim stored [
    | none ↦ c
    | some items ↦ record c { escrows = restore_items items c.escrows }
  ]
]

-- The constructor.
unfoldable pub create_escrow_client :
    MonmouthWallet
    → Option Address
    → Option (ActivityLog EscrowLog)
    → Option (Option (List (EscrowRecordOf Text)))
    → EscrowClient
unfolding restore_escrows
create_escrow_client wallet default_arbiter activity_log storage = restore_escrows (record {
  wallet = wallet;
  default_arbiter = default_arbiter;
  escrows = [];
  listeners = [];
  activity_log = activity_log;
  storage = storage;
  delivered = [];
})

unfoldable pub clear_escrows : EscrowClient → EscrowClient
clear_escrows c = record c { escrows = []; storage = Option.map (λ _. none) c.storage }

unfoldable pub count : EscrowClient → ℕ
count c = length (values c.escrows)

-- `on`: the listeners are a `Set`, so a listener that is there is not added again.
unfoldable pub on : ℕ → EscrowClient → EscrowClient
on listener c = record c { listeners = with_listener listener c.listeners }

-- What `on` returns: it takes the listener out again.
unfoldable pub off : ℕ → EscrowClient → EscrowClient
off listener c = record c { listeners = without_listener listener c.listeners }

unfoldable pub set_activity_log : ActivityLog EscrowLog → EscrowClient → EscrowClient
set_activity_log log c = record c { activity_log = some log }
