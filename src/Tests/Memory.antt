-- ===== src/Tests/Memory.antt =====
-- Tests of the activity log (wallet-sdk/src/memory/ActivityLog.ts).
use reth_monmouth.Common.{
  ℕ, ◌+◌, ◌≡◌, ◌≤◌, refl, true, none, some, List, [], ◌∷◌, arith, length, All, filter, or_else,
}
use reth_monmouth.Common.Text.{Text, codes, text_eq}
use reth_monmouth.Memory.Entry.{
  ActivityActionType, SyncStatus, ActivityLogEntry, NewEntry, has_status, same_action,
}
use reth_monmouth.Memory.Sort.{IsOrdered, sort}
use reth_monmouth.Memory.ActivityLog.{
  ActivityLog, QueryOptions, Order, log, get, import, query, delete_older_than, create_activity_log,
  in_order, selected,
}
use reth_monmouth.Memory.ActivityLog.Ids.{IsNumbered}
use reth_monmouth.Memory.ActivityLog.Calls.{
  Call, logs, deletes, reloads, run, run-create-IsNumbered,
}
use reth_monmouth.Memory.ActivityLog.Import.{Known, import_twice}
use reth_monmouth.Memory.ActivityLog.Query.{matches, query_lem}
use reth_monmouth.Memory.ActivityLog.Stats.{
  get_stats, count_of, set_count, add_entries, add_entry, no_stats,
}
use reth_monmouth.Memory.ActivityLog.Stats.Totals.{IsBest, get_stats_lem}
use reth_monmouth.Memory.ActivityLog.Retention.{Purged, MayStay, delete_older_than-Purged}

memories : Unit {0}
unfolding log get import query delete_older_than create_activity_log run sort selected
memories = tt

abbrev entry : ℕ → Text → ActivityActionType → ℕ → ActivityLogEntry ℕ
entry id agent_id action_type timestamp = record {
  id = some id;
  agent_id = agent_id;
  action_type = action_type;
  tx_hash = none;
  timestamp = timestamp;
  payload = 0;
  sync_status = some SyncStatus.synced;
  version = some 1;
}

abbrev scout : Text
scout = codes "scout"

abbrev some_log : ActivityLog ℕ
some_log = record {
  entries =
      entry 1 scout ActivityActionType.decision 500
      ∷ entry 2 (codes "other") ActivityActionType.error 700
      ∷ entry 4 scout ActivityActionType.transaction 900
      ∷ [];
  next_id = 5;
  listeners = [];
  auto_save = true;
  storage = some none;
  delivered = [];
}

some_log-IsNumbered : IsNumbered some_log
some_log-IsNumbered = record {
  entries = (1, refl, omega arith, (2, refl, omega arith, (4, refl, omega arith, omega arith)));
  stored = tt;
}

abbrev new_entry : NewEntry ℕ
new_entry = record {
  agent_id = scout;
  action_type = ActivityActionType.decision;
  tx_hash = none;
  payload = 9;
}

abbrev of_scout : QueryOptions
of_scout = record {
  agent_id = some scout;
  action_type = none;
  start_time = none;
  end_time = none;
  order = none;
  limit = none;
  offset = none;
}

memory_tests :
    (query of_scout some_log
      ≡ entry 4 scout ActivityActionType.transaction 900
        ∷ entry 1 scout ActivityActionType.decision 500
        ∷ [])
    × ((import
          (entry 9 scout ActivityActionType.decision 500
            ∷ entry 9 scout ActivityActionType.error 500
            ∷ [])
          some_log).0
        ≡ 1)
    × ((delete_older_than 1_000 200 (some scout) true some_log).0 ≡ 1)
unfolding memories
memory_tests = (refl, refl, refl)

abbrev history : List (ℕ × Call ℕ)
history = (10, logs new_entry) ∷ (20, logs new_entry) ∷ (30, deletes 1) ∷ (40, reloads) ∷ []

run-create-IsNumbered_example : IsNumbered (run history (create_activity_log true (some none)))
run-create-IsNumbered_example = run-create-IsNumbered true (some none) history tt

import_twice_example :
    let es = entry 9 scout ActivityActionType.error 500 ∷ [] in
    let (n, l') = import es some_log in
    (length l'.entries ≡ 3 + n) × All (Known l') es × (import es l' ≡ (0, l'))
import_twice_example = import_twice (entry 9 scout ActivityActionType.error 500 ∷ []) some_log

query_lem_example :
    All (λ e. matches of_scout e ≡ true) (query of_scout some_log)
    × IsOrdered (in_order Order.desc) (query of_scout some_log)
    × (length (query of_scout some_log) ≤ 3)
query_lem_example = query_lem of_scout some_log

counted_scout :
    let stats = (get_stats scout some_log).1 in
    (stats.synced ≡ 2)
    × (count_of ActivityActionType.decision stats.by_action_type ≡ some 1)
    × (stats.oldest_timestamp ≡ some 500)
    × (stats.newest_timestamp ≡ some 900)
unfolding get_stats add_entries add_entry no_stats count_of set_count text_eq
counted_scout = (refl, refl, refl, refl)

get_stats_lem_example :
    let entries = filter (λ e. text_eq e.agent_id scout) some_log.entries in
    let stats = (get_stats scout some_log).1 in
    ((get_stats scout some_log).0 ≡ length entries)
    × ((a : ActivityActionType)
        → or_else (count_of a stats.by_action_type) 0
          ≡ length (filter (λ e. same_action e.action_type a) entries))
    × (stats.pending ≡ length (filter (λ e. has_status SyncStatus.pending e.sync_status) entries))
    × (stats.synced ≡ length (filter (λ e. has_status SyncStatus.synced e.sync_status) entries))
    × (stats.conflicts
        ≡ length (filter (λ e. has_status SyncStatus.conflict e.sync_status) entries))
    × IsBest (λ t u. t ≤ u) entries stats.oldest_timestamp
    × IsBest (λ t u. u ≤ t) entries stats.newest_timestamp
get_stats_lem_example = get_stats_lem scout some_log

delete_older_than-Purged_example :
    let (n, l') = delete_older_than 1_000 200 (some scout) true some_log in
    Purged (MayStay 1_000 200 (some scout) true) some_log.entries l'.entries
    × (n + length l'.entries ≡ 3)
delete_older_than-Purged_example = delete_older_than-Purged 1_000 200 (some scout) true some_log
