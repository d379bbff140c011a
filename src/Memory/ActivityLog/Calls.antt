-- ===== src/Memory/ActivityLog/Calls.antt =====
-- Histories of calls on a log, and what its ids are good for.
use reth_monmouth.Common.{
  ℕ, suc, ◌≤◌, ◌≡◌, refl, Bool, true, false, Option, some, List, [], ◌∷◌, ◌++◌, arith,
  if◌then◌else◌, ◌==◌,
}
use reth_monmouth.Common.Text.{Text}
use reth_monmouth.Memory.Entry.{ActivityLogEntry, NewEntry, SyncStatus}
use reth_monmouth.Memory.ActivityLog.{
  ActivityLog, StoredLog, log, update_sync_status, mark_synced, import, clear, clear_agent, delete,
  delete_older_than, save, load, get, has_id, find, create_activity_log, on, off,
}
use reth_monmouth.Memory.ActivityLog.Ids.{
  Numbered, StoredNumbered, IsNumbered, save-IsNumbered, load-IsNumbered, log-IsNumbered,
  update_sync_status-IsNumbered, mark_synced-IsNumbered, import-IsNumbered, clear-IsNumbered,
  clear_agent-IsNumbered, delete-IsNumbered, delete_older_than-IsNumbered,
}

-- The calls that change a log.
pub data Call (D : Type 0) : Type 0 where
  logs : NewEntry D → Call D
  sets_status : ℕ → SyncStatus → Call D
  marks_synced : List ℕ → Call D
  imports : List (ActivityLogEntry D) → Call D
  clears saves reloads : Call D
  clears_agent : Text → Call D
  deletes subscribes unsubscribes : ℕ → Call D
  deletes_older : (max_age : ℕ) → Option Text → Bool → Call D

module _ {D : Type 0} where
  -- A call at a time of the clock.
  unfoldable pub step : ℕ × Call D → ActivityLog D → ActivityLog D
  step (now, logs entry) l = (log now entry l).1
  step (now, sets_status id s) l = (update_sync_status id s l).1
  step (now, marks_synced ids) l = mark_synced ids l
  step (now, imports es) l = (import es l).1
  step (now, clears) l = clear l
  step (now, saves) l = save l
  step (now, reloads) l = load l
  step (now, clears_agent a) l = clear_agent a l
  step (now, deletes id) l = (delete id l).1
  step (now, subscribes i) l = on i l
  step (now, unsubscribes i) l = off i l
  step (now, deletes_older m a b) l = (delete_older_than now m a b l).1

  unfoldable pub run : List (ℕ × Call D) → ActivityLog D → ActivityLog D
  unfolding step
  run [] l = l
  run (c ∷ cs) l = run cs (step c l)

  step-IsNumbered : (c : ℕ × Call D) (l : ActivityLog D) → IsNumbered l → IsNumbered (step c l)
  unfolding step on off
  step-IsNumbered (now, logs entry) l v = log-IsNumbered now entry l v
  step-IsNumbered (now, sets_status id s) l v = update_sync_status-IsNumbered id s l v
  step-IsNumbered (now, marks_synced ids) l v = mark_synced-IsNumbered ids l v
  step-IsNumbered (now, imports es) l v = import-IsNumbered es l v
  step-IsNumbered (now, clears) l v = clear-IsNumbered l v
  step-IsNumbered (now, saves) l v = save-IsNumbered l v
  step-IsNumbered (now, reloads) l v = load-IsNumbered l v
  step-IsNumbered (now, clears_agent a) l v = clear_agent-IsNumbered a l v
  step-IsNumbered (now, deletes id) l v = delete-IsNumbered id l v
  step-IsNumbered (now, subscribes i) l v = record { entries = v.entries; stored = v.stored }
  step-IsNumbered (now, unsubscribes i) l v = record { entries = v.entries; stored = v.stored }
  step-IsNumbered (now, deletes_older m a b) l v = delete_older_than-IsNumbered now m a b l v

  run-IsNumbered :
      (cs : List (ℕ × Call D)) (l : ActivityLog D) → IsNumbered l → IsNumbered (run cs l)
  unfolding run
  run-IsNumbered [] l v = v
  run-IsNumbered (c ∷ cs) l v = run-IsNumbered cs (step c l) (step-IsNumbered c l v)

  create-IsNumbered :
      (auto_save : Bool) (storage : Option (Option (StoredLog D)))
      → StoredNumbered storage
      → IsNumbered (create_activity_log auto_save storage)
  unfolding create_activity_log
  create-IsNumbered auto_save storage n =
      load-IsNumbered _ (record { entries = omega arith; stored = n })

  -- After any history that starts with the constructor, the ids of the log in memory and of the
  -- log in storage are positive, increase from entry to entry and stay below the next id; so no two
  -- entries of a log share an id (`clear` starts the ids anew). The storage that the constructor finds is numbered so, or empty.
  pub run-create-IsNumbered :
      (auto_save : Bool) (storage : Option (Option (StoredLog D))) (cs : List (ℕ × Call D))
      → StoredNumbered storage
      → IsNumbered (run cs (create_activity_log auto_save storage))
  run-create-IsNumbered auto_save storage cs n =
      run-IsNumbered cs _ (create-IsNumbered auto_save storage n)

  Numbered-below : (lo hi : ℕ) (es : List (ActivityLogEntry D)) → Numbered lo hi es → lo ≤ hi
  Numbered-below lo hi [] n = n
  Numbered-below lo hi (e ∷ es) (k, id, low, rest) =
      omega (arith, Numbered-below (suc k) hi es rest)

  find-append :
      (i lo hi : ℕ) (es : List (ActivityLogEntry D)) (e : ActivityLogEntry D)
      → Numbered lo hi es
      → e.id ≡ some hi
      → find (has_id i) (es ++ e ∷ []) ≡ (if i == hi then some e else find (has_id i) es)
  unfolding find
  find-append i lo hi [] e n id = ground arith
  find-append i lo hi (x ∷ xs) e (k, id', low, rest) id =
      ground (arith, find-append i (suc k) hi xs e rest id, Numbered-below (suc k) hi xs rest)

  auto_saved-entries :
      (b : Bool) (l : ActivityLog D) → (if b then save l else l).entries ≡ l.entries
  unfolding save
  auto_saved-entries true l = refl
  auto_saved-entries false l = refl

  -- An entry that was logged is what `get` finds under its id, and under every other id `get` finds
  -- what it found before.
  pub get-log :
      (now i : ℕ) (entry : NewEntry D) (l : ActivityLog D)
      → IsNumbered l
      → let (e, l') = log now entry l in
        (e.id ≡ some l.next_id) × (get i l' ≡ (if i == l.next_id then some e else get i l))
  unfolding log get
  get-log now i entry l v = (
    refl,
    rw (auto_saved-entries l.auto_save) (find-append i 1 l.next_id l.entries _ v.entries refl),
  )
