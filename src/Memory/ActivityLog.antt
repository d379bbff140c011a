-- ===== src/Memory/ActivityLog.antt =====
-- wallet-sdk/src/memory/ActivityLog.ts in its localStorage mode, over any type of payload. Storage
-- keeps the record that the JSON text encodes; `delivered` is what the listeners were called with.
pub mod Ids
pub mod Calls
pub mod Import
pub mod Query
pub mod Retention
pub mod Stats
use mathlib.Core.Option
use reth_monmouth.Common.{
  with_listener, without_listener, ℕ, suc, ◌+◌, ◌-◌, Bool, true, false, not, ◌&&◌, ◌||◌, Option,
  none, some, List, [], ◌∷◌, ◌++◌, map, ltb, leb, ◌==◌, if◌then◌else◌, or_else, is_some, any,
  filter, take, drop, length,
}
use reth_monmouth.Common.Text.{Text, text_eq}
use reth_monmouth.Memory.Entry.{
  ActivityActionType, SyncStatus, ActivityLogEntry, NewEntry, same_action, has_status,
}
use reth_monmouth.Memory.Sort.{sort}

pub data MemoryEvent (D : Type 0) : Type 0 where
  activity_logged : ActivityLogEntry D → MemoryEvent D
  storage_cleared : Option Text → MemoryEvent D

-- What `save` writes.
pub record StoredLog (D : Type 0) : Type 0 where
  pub entries : List (ActivityLogEntry D)
  pub next_id : ℕ

-- `storage` is `none` without `localStorage`, and `some none` before the first save.
pub record ActivityLog (D : Type 0) : Type 0 where
  pub entries : List (ActivityLogEntry D)
  pub next_id : ℕ
  pub listeners : List ℕ
  pub auto_save : Bool
  pub storage : Option (Option (StoredLog D))
  pub delivered : List (ℕ × MemoryEvent D)

pub data Order : Type 0 where
  asc desc : Order

-- `ActivityQueryOptions`
pub record QueryOptions : Type 0 where
  pub agent_id : Option Text
  pub action_type : Option ActivityActionType
  pub start_time : Option ℕ
  pub end_time : Option ℕ
  pub order : Option Order
  pub limit : Option ℕ
  pub offset : Option ℕ

-- A filter that is applied only when its option is set.
abbrev pub when_set {ℓ} : {A : Type ℓ} → Option A → (A → Bool) → Bool
when_set none test = true
when_set (some a) test = test a

-- As `when_set`; the empty text counts as not set.
abbrev pub when_named : Option Text → (Text → Bool) → Bool
when_named (some (c ∷ s)) test = test (c ∷ s)
when_named _ test = true

-- As `when_set`; zero counts as not set, `options.limit > 0`.
abbrev pub when_positive {ℓ} : {A : Type ℓ} → Option ℕ → (ℕ → A → A) → A → A
when_positive (some (suc n)) cut a = cut (suc n) a
when_positive _ cut a = a

module _ {D : Type 0} where
  unfoldable pub emit : MemoryEvent D → ActivityLog D → ActivityLog D
  emit event l = record l { delivered = l.delivered ++ map (λ i. (i, event)) l.listeners }

  -- `on`: a set keeps a listener that it has already.
  unfoldable pub on : ℕ → ActivityLog D → ActivityLog D
  on i l = record l { listeners = with_listener i l.listeners }

  -- The function that `on` returns.
  unfoldable pub off : ℕ → ActivityLog D → ActivityLog D
  off i l = record l { listeners = without_listener i l.listeners }

  unfoldable pub save : ActivityLog D → ActivityLog D
  save l = record l {
    storage =
        Option.map (λ _. some (record { entries = l.entries; next_id = l.next_id })) l.storage;
  }

  abbrev auto_saved : ActivityLog D → ActivityLog D
  auto_saved l = if l.auto_save then save l else l

  unfoldable pub load : ActivityLog D → ActivityLog D
  load l = elim l.storage [
    | none ↦ l
    | some stored ↦ elim stored [
      | none ↦ l
      | some s ↦ record l { entries = s.entries; next_id = s.next_id }
    ]
  ]

  -- The constructor in localStorage mode.
  unfoldable pub create_activity_log : Bool → Option (Option (StoredLog D)) → ActivityLog D
  unfolding load
  create_activity_log auto_save storage = load (record {
    entries = [];
    next_id = 1;
    listeners = [];
    auto_save = auto_save;
    storage = storage;
    delivered = [];
  })

  unfoldable pub log : ℕ → NewEntry D → ActivityLog D → ActivityLogEntry D × ActivityLog D
  unfolding emit save
  log now entry l =
      let full : ActivityLogEntry D = record {
        id = some l.next_id;
        agent_id = entry.agent_id;
        action_type = entry.action_type;
        tx_hash = entry.tx_hash;
        timestamp = now;
        payload = entry.payload;
        sync_status = some SyncStatus.pending;
        version = some 1;
      } in
      let pushed = record l { entries = l.entries ++ full ∷ []; next_id = suc l.next_id } in
      (full, emit (MemoryEvent.activity_logged full) (auto_saved pushed))

  abbrev newest_first : ActivityLogEntry D → ActivityLogEntry D → Bool
  newest_first a b = leb b.timestamp a.timestamp

  abbrev oldest_first : ActivityLogEntry D → ActivityLogEntry D → Bool
  oldest_first a b = leb a.timestamp b.timestamp

  unfoldable pub get_history : Text → Option ℕ → ActivityLog D → List (ActivityLogEntry D)
  get_history agent_id limit l =
      when_positive limit take
        (sort newest_first (filter (λ e. text_eq e.agent_id agent_id) l.entries))

  abbrev pub in_order : Order → ActivityLogEntry D → ActivityLogEntry D → Bool
  in_order Order.desc = newest_first
  in_order Order.asc = oldest_first

  -- The filters of `query`, in the source's order.
  unfoldable pub selected : QueryOptions → List (ActivityLogEntry D) → List (ActivityLogEntry D)
  selected o entries =
      filter (λ e. when_set o.end_time (λ t. leb e.timestamp t))
        (filter (λ e. when_set o.start_time (λ t. leb t e.timestamp))
          (filter (λ e. when_set o.action_type (λ a. same_action e.action_type a))
            (filter (λ e. when_named o.agent_id (λ a. text_eq e.agent_id a)) entries)))

  unfoldable pub query : QueryOptions → ActivityLog D → List (ActivityLogEntry D)
  query o l = when_positive o.limit take (
      when_positive o.offset drop
        (sort (in_order (or_else o.order Order.desc)) (selected o l.entries)))

  -- `e.id === id`
  abbrev pub has_id : ℕ → ActivityLogEntry D → Bool
  has_id id e = elim e.id [ none ↦ false | some i ↦ i == id ]

  unfoldable pub find :
      (ActivityLogEntry D → Bool) → List (ActivityLogEntry D) → Option (ActivityLogEntry D)
  find p [] = none
  find p (e ∷ es) = if p e then some e else find p es

  unfoldable pub get : ℕ → ActivityLog D → Option (ActivityLogEntry D)
  unfolding find
  get id l = find (has_id id) l.entries

  abbrev with_status : SyncStatus → ActivityLogEntry D → ActivityLogEntry D
  with_status s e = record e {
    sync_status = some s;
    version = elim s [ SyncStatus.synced ↦ some (or_else e.version 1 + 1) | _ ↦ e.version ];
  }

  -- The first entry with the id, changed in place.
  unfoldable pub update_first :
      ℕ
      → (ActivityLogEntry D → ActivityLogEntry D)
      → List (ActivityLogEntry D)
      → List (ActivityLogEntry D)
  update_first id f [] = []
  update_first id f (e ∷ es) = if has_id id e then f e ∷ es else e ∷ update_first id f es

  unfoldable pub update_sync_status : ℕ → SyncStatus → ActivityLog D → Bool × ActivityLog D
  unfolding update_first save
  update_sync_status id status l =
      if any (has_id id) l.entries
      then (
        true,
        auto_saved (record l { entries = update_first id (with_status status) l.entries }),
      )
      else (false, l)

  unfoldable pub get_pending_sync : ActivityLog D → List (ActivityLogEntry D)
  get_pending_sync l = filter (λ e. has_status SyncStatus.pending e.sync_status) l.entries

  unfoldable pub get_conflicts : ActivityLog D → List (ActivityLogEntry D)
  get_conflicts l = filter (λ e. has_status SyncStatus.conflict e.sync_status) l.entries

  unfoldable pub mark_synced : List ℕ → ActivityLog D → ActivityLog D
  unfolding update_sync_status
  mark_synced [] l = l
  mark_synced (id ∷ ids) l = mark_synced ids (update_sync_status id SyncStatus.synced l).1

  unfoldable pub export_agent : Text → ActivityLog D → List (ActivityLogEntry D)
  export_agent agent_id l = filter (λ e. text_eq e.agent_id agent_id) l.entries

  -- The test for a duplicate in `import`.
  unfoldable pub same_event : ActivityLogEntry D → ActivityLogEntry D → Bool
  unfolding text_eq
  same_event entry e =
      text_eq e.agent_id entry.agent_id
      && e.timestamp == entry.timestamp
      && same_action e.action_type entry.action_type

  -- An imported entry under a fresh id.
  abbrev renumbered : ℕ → ActivityLogEntry D → ActivityLogEntry D
  renumbered id entry = record entry {
    id = some id;
    sync_status = some (or_else entry.sync_status SyncStatus.pending);
    version = some (or_else entry.version 1);
  }

  -- The loop of `import`, on the count so far.
  import_from : List (ActivityLogEntry D) → ℕ → ActivityLog D → ℕ × ActivityLog D
  unfolding same_event
  import_from [] imported l = (imported, l)
  import_from (entry ∷ more) imported l =
      let exists = any (same_event entry) l.entries in
      import_from more (if exists then imported else suc imported) (
        if exists then l else record l {
          entries = l.entries ++ renumbered l.next_id entry ∷ [];
          next_id = suc l.next_id;
        })

  unfoldable pub import : List (ActivityLogEntry D) → ActivityLog D → ℕ × ActivityLog D
  unfolding import_from save
  import entries l =
      let (imported, l') = import_from entries 0 l in
      (imported, if ltb 0 imported && l'.auto_save then save l' else l')

  unfoldable pub clear : ActivityLog D → ActivityLog D
  unfolding emit save
  clear l =
      emit (MemoryEvent.storage_cleared none) (auto_saved (record l { entries = []; next_id = 1 }))

  unfoldable pub clear_agent : Text → ActivityLog D → ActivityLog D
  unfolding emit save
  clear_agent agent_id l = emit (MemoryEvent.storage_cleared (some agent_id)) (
      auto_saved (record l { entries = filter (λ e. not (text_eq e.agent_id agent_id)) l.entries }))

  -- `splice(findIndex(…), 1)`
  unfoldable pub remove_first : ℕ → List (ActivityLogEntry D) → List (ActivityLogEntry D)
  remove_first id [] = []
  remove_first id (e ∷ es) = if has_id id e then es else e ∷ remove_first id es

  unfoldable pub delete : ℕ → ActivityLog D → Bool × ActivityLog D
  unfolding remove_first save
  delete id l =
      if any (has_id id) l.entries
      then (true, auto_saved (record l { entries = remove_first id l.entries }))
      else (false, l)

  -- What `deleteOlderThan` keeps; `now - max_age` may be negative, and then everything is kept.
  abbrev pub kept : ℕ → ℕ → Option Text → Bool → ActivityLogEntry D → Bool
  kept now max_age agent_id only_synced e =
      leb now (e.timestamp + max_age)
      || not (when_named agent_id (λ a. text_eq e.agent_id a))
      || only_synced && not (has_status SyncStatus.synced e.sync_status)

  unfoldable pub delete_older_than : ℕ → ℕ → Option Text → Bool → ActivityLog D → ℕ × ActivityLog D
  unfolding save
  delete_older_than now max_age agent_id only_synced l =
      let entries = filter (kept now max_age agent_id only_synced) l.entries in
      let deleted = length l.entries - length entries in
      let l' = record l { entries = entries } in
      (deleted, if ltb 0 deleted && l'.auto_save then save l' else l')

  unfoldable pub count : Option Text → ActivityLog D → ℕ
  count agent_id l =
      length (filter (λ e. when_named agent_id (λ a. text_eq e.agent_id a)) l.entries)
