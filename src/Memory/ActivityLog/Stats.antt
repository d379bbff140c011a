-- ===== src/Memory/ActivityLog/Stats.antt =====
-- `getStats` of wallet-sdk/src/memory/ActivityLog.ts.
pub mod Totals
use reth_monmouth.Common.{
  ℕ, zero, suc, ◌+◌, ◌≤◌, ◌≡◌, refl, Bool, true, false, ◌||◌, Option, none, some, List, [], ◌∷◌,
  arith, ltb, if◌then◌else◌, or_else, filter, length, All, Some, Bool-cases, inl, inr,
}
use reth_monmouth.Common.Text.{Text, text_eq}
use reth_monmouth.Memory.Entry.{
  ActivityActionType, SyncStatus, ActivityLogEntry, same_action, same_action_self, has_status,
}
use reth_monmouth.Memory.ActivityLog.{ActivityLog}

-- `byActionType`, in the order in which the types were first counted.
abbrev pub ActionCounts : Type 0
ActionCounts = List (ActivityActionType × ℕ)

unfoldable pub count_of : ActivityActionType → ActionCounts → Option ℕ
count_of a [] = none
count_of a ((b, n) ∷ counts) = if same_action b a then some n else count_of a counts

unfoldable pub set_count : ActivityActionType → ℕ → ActionCounts → ActionCounts
set_count a n [] = (a, n) ∷ []
set_count a n ((b, m) ∷ counts) =
    if same_action b a then (b, n) ∷ counts else (b, m) ∷ set_count a n counts

pub record Stats : Type 0 where
  pub by_action_type : ActionCounts
  pub pending : ℕ
  pub synced : ℕ
  pub conflicts : ℕ
  pub oldest_timestamp : Option ℕ
  pub newest_timestamp : Option ℕ

-- `if (best === null || better(timestamp, best)) best = timestamp`
abbrev pub best : (ℕ → ℕ → Bool) → ℕ → Option ℕ → Option ℕ
best better t none = some t
best better t (some b) = if better t b then some t else some b

unfoldable pub no_stats : Stats
no_stats = record {
  by_action_type = [];
  pending = 0;
  synced = 0;
  conflicts = 0;
  oldest_timestamp = none;
  newest_timestamp = none;
}

-- One more where the status is the given one.
abbrev pub tally : Bool → ℕ → ℕ
tally true n = n + 1
tally false n = n

module _ {D : Type 0} where
  -- The body of the loop.
  unfoldable pub add_entry : ActivityLogEntry D → Stats → Stats
  unfolding count_of set_count
  add_entry e s = record {
    by_action_type =
        set_count e.action_type (or_else (count_of e.action_type s.by_action_type) 0 + 1)
          s.by_action_type;
    pending = tally (has_status SyncStatus.pending e.sync_status) s.pending;
    synced = tally (has_status SyncStatus.synced e.sync_status) s.synced;
    conflicts = tally (has_status SyncStatus.conflict e.sync_status) s.conflicts;
    oldest_timestamp = best ltb e.timestamp s.oldest_timestamp;
    newest_timestamp = best (λ t b. ltb b t) e.timestamp s.newest_timestamp;
  }

  unfoldable pub add_entries : List (ActivityLogEntry D) → Stats → Stats
  unfolding add_entry
  add_entries [] s = s
  add_entries (e ∷ es) s = add_entries es (add_entry e s)

  -- The total and the statistics of the loop.
  unfoldable pub get_stats : Text → ActivityLog D → ℕ × Stats
  unfolding add_entries no_stats
  get_stats agent_id l =
      let entries = filter (λ e. text_eq e.agent_id agent_id) l.entries in
      (length entries, add_entries entries no_stats)
