-- ===== src/Memory/ActivityLog/Ids.antt =====
-- The ids of the entries: positive, increasing in the order of the log, and below the next id.
use reth_monmouth.Common.{
  ℕ, suc, ◌≤◌, ◌≡◌, refl, Bool, true, false, not, Option, none, some, List, [], ◌∷◌, ◌++◌, arith,
  filter, if◌then◌else◌, Bool-cases, inl, inr, any,
}
use reth_monmouth.Common.Text.{Text, text_eq}
use reth_monmouth.Memory.Entry.{ActivityLogEntry, NewEntry, SyncStatus}
use reth_monmouth.Memory.ActivityLog.{
  ActivityLog, StoredLog, log, update_sync_status, update_first, mark_synced, import, import_from,
  clear, clear_agent, delete, remove_first, delete_older_than, save, load, has_id, with_status,
  kept, renumbered, same_event,
}

module _ {D : Type 0} where
  -- The ids increase from `lo` and stay below `hi`.
  abbrev pub Numbered : ℕ → ℕ → List (ActivityLogEntry D) → Type 0
  Numbered lo hi [] = lo ≤ hi
  Numbered lo hi (e ∷ es) = (k : ℕ) × (e.id ≡ some k) × (lo ≤ k) × Numbered (suc k) hi es

  Numbered-weaken :
      (lo lo' hi : ℕ) (es : List (ActivityLogEntry D))
      → lo ≤ lo'
      → Numbered lo' hi es
      → Numbered lo hi es
  Numbered-weaken lo lo' hi [] h n = omega arith
  Numbered-weaken lo lo' hi (e ∷ es) h (k, id, low, rest) = (k, id, omega arith, rest)

  Numbered-append :
      (lo hi : ℕ) (es : List (ActivityLogEntry D)) (e : ActivityLogEntry D)
      → Numbered lo hi es
      → e.id ≡ some hi
      → Numbered lo (suc hi) (es ++ e ∷ [])
  Numbered-append lo hi [] e n id = (hi, id, n, omega arith)
  Numbered-append lo hi (x ∷ xs) e (k, id', low, rest) id =
      (k, id', low, Numbered-append (suc k) hi xs e rest id)

  Numbered-filter :
      (p : ActivityLogEntry D → Bool) (lo hi : ℕ) (es : List (ActivityLogEntry D))
      → Numbered lo hi es
      → Numbered lo hi (filter p es)
  Numbered-filter p lo hi [] n = n
  Numbered-filter p lo hi (e ∷ es) (k, id, low, rest) =
      let ih = Numbered-filter p (suc k) hi es rest in
      elim (Bool-cases (p e)) [
        | inl keep ↦ rw keep (k, id, low, ih)
        | inr drop ↦ rw drop (Numbered-weaken lo (suc k) hi (filter p es) (omega arith) ih)
      ]

  Numbered-remove_first :
      (i lo hi : ℕ) (es : List (ActivityLogEntry D))
      → Numbered lo hi es
      → Numbered lo hi (remove_first i es)
  unfolding remove_first
  Numbered-remove_first i lo hi [] n = n
  Numbered-remove_first i lo hi (e ∷ es) (k, id, low, rest) = elim (Bool-cases (has_id i e)) [
    | inl here ↦ rw here (Numbered-weaken lo (suc k) hi es (omega arith) rest)
    | inr other ↦ rw other (k, id, low, Numbered-remove_first i (suc k) hi es rest)
  ]

  Numbered-update_first :
      (i lo hi : ℕ) (s : SyncStatus) (es : List (ActivityLogEntry D))
      → Numbered lo hi es
      → Numbered lo hi (update_first i (with_status s) es)
  unfolding update_first
  Numbered-update_first i lo hi s [] n = n
  Numbered-update_first i lo hi s (e ∷ es) (k, id, low, rest) = elim (Bool-cases (has_id i e)) [
    | inl here ↦ rw here (k, id, low, rest)
    | inr other ↦ rw other (k, id, low, Numbered-update_first i (suc k) hi s es rest)
  ]

  abbrev pub StoredNumbered : Option (Option (StoredLog D)) → Type 0
  StoredNumbered none = Unit
  StoredNumbered (some none) = Unit
  StoredNumbered (some (some s)) = Numbered 1 s.next_id s.entries

  -- The log in memory and the log in storage are numbered.
  pub record IsNumbered (l : ActivityLog D) : Type 0 where
    pub entries : Numbered 1 l.next_id l.entries
    pub stored : StoredNumbered l.storage

  pub save-IsNumbered : (l : ActivityLog D) → IsNumbered l → IsNumbered (save l)
  unfolding save
  save-IsNumbered l v = record { entries = v.entries; stored = written l.storage }
    where
      written :
          (s : Option (Option (StoredLog D)))
          → StoredNumbered (elim s [
            | none ↦ none
            | some _ ↦ some (some (record { entries = l.entries; next_id = l.next_id }))
          ])
      written none = tt
      written (some _) = v.entries

  -- An auto-save keeps the numbering, whether it is on or not.
  saved_if : (b : Bool) (l : ActivityLog D) → IsNumbered l → IsNumbered (if b then save l else l)
  saved_if true l v = save-IsNumbered l v
  saved_if false l v = v

  abbrev replaced : List (ActivityLogEntry D) → ActivityLog D → ActivityLog D
  replaced es l = record l { entries = es }

  pub load-IsNumbered : (l : ActivityLog D) → IsNumbered l → IsNumbered (load l)
  unfolding load
  load-IsNumbered l v = go l.storage refl v.stored
    where
      go :
          (s : Option (Option (StoredLog D)))
          → l.storage ≡ s
          → StoredNumbered s
          → IsNumbered (elim s [
            | none ↦ l
            | some stored ↦ elim stored [
              | none ↦ l
              | some t ↦ record l { entries = t.entries; next_id = t.next_id }
            ]
          ])
      go none e n = v
      go (some none) e n = v
      go (some (some t)) e n = record { entries = n; stored = v.stored }

  pub log-IsNumbered :
      (now : ℕ) (entry : NewEntry D) (l : ActivityLog D)
      → IsNumbered l
      → IsNumbered (log now entry l).1
  unfolding log
  log-IsNumbered now entry l v =
      let s =
        saved_if l.auto_save
          (record l { entries = l.entries ++ (log now entry l).0 ∷ []; next_id = suc l.next_id })
          (record {
            entries = Numbered-append 1 l.next_id l.entries _ v.entries refl;
            stored = v.stored;
          }) in
      record { entries = s.entries; stored = s.stored }

  pub update_sync_status-IsNumbered :
      (id : ℕ) (s : SyncStatus) (l : ActivityLog D)
      → IsNumbered l
      → IsNumbered (update_sync_status id s l).1
  unfolding update_sync_status
  update_sync_status-IsNumbered id s l v = elim (Bool-cases (any (has_id id) l.entries)) [
    | inl found ↦ rw found (
        saved_if l.auto_save (replaced (update_first id (with_status s) l.entries) l) (record {
          entries = Numbered-update_first id 1 l.next_id s l.entries v.entries;
          stored = v.stored;
        }))
    | inr missing ↦ rw missing v
  ]

  pub mark_synced-IsNumbered :
      (ids : List ℕ) (l : ActivityLog D) → IsNumbered l → IsNumbered (mark_synced ids l)
  unfolding mark_synced
  mark_synced-IsNumbered [] l v = v
  mark_synced-IsNumbered (id ∷ ids) l v =
      mark_synced-IsNumbered ids (update_sync_status id SyncStatus.synced l).1
        (update_sync_status-IsNumbered id SyncStatus.synced l v)

  import_from-IsNumbered :
      (es : List (ActivityLogEntry D)) (n : ℕ) (l : ActivityLog D)
      → IsNumbered l
      → IsNumbered (import_from es n l).1
  unfolding import_from
  import_from-IsNumbered [] n l v = v
  import_from-IsNumbered (e ∷ es) n l v = elim (Bool-cases (any (same_event e) l.entries)) [
    | inl there ↦ rw (there, import_from) (import_from-IsNumbered es n l v)
    | inr fresh ↦
        rw (fresh, import_from)
          (import_from-IsNumbered es (suc n) _ (record {
            entries = Numbered-append 1 l.next_id l.entries (renumbered l.next_id e) v.entries refl;
            stored = v.stored;
          }))
  ]

  pub import-IsNumbered :
      (es : List (ActivityLogEntry D)) (l : ActivityLog D)
      → IsNumbered l
      → IsNumbered (import es l).1
  unfolding import
  import-IsNumbered es l v = saved_if _ _ (import_from-IsNumbered es 0 l v)

  pub clear-IsNumbered : (l : ActivityLog D) → IsNumbered l → IsNumbered (clear l)
  unfolding clear
  clear-IsNumbered l v =
      let s =
        saved_if l.auto_save (record l { entries = []; next_id = 1 })
          (record { entries = omega arith; stored = v.stored }) in
      record { entries = s.entries; stored = s.stored }

  pub clear_agent-IsNumbered :
      (agent_id : Text) (l : ActivityLog D) → IsNumbered l → IsNumbered (clear_agent agent_id l)
  unfolding clear_agent
  clear_agent-IsNumbered a l v =
      let s =
        saved_if l.auto_save (replaced (filter (λ e. not (text_eq e.agent_id a)) l.entries) l)
          (record {
            entries = Numbered-filter _ 1 l.next_id l.entries v.entries;
            stored = v.stored;
          }) in
      record { entries = s.entries; stored = s.stored }

  pub delete-IsNumbered : (id : ℕ) (l : ActivityLog D) → IsNumbered l → IsNumbered (delete id l).1
  unfolding delete
  delete-IsNumbered id l v = elim (Bool-cases (any (has_id id) l.entries)) [
    | inl found ↦ rw found (
        saved_if l.auto_save (replaced (remove_first id l.entries) l) (record {
          entries = Numbered-remove_first id 1 l.next_id l.entries v.entries;
          stored = v.stored;
        }))
    | inr missing ↦ rw missing v
  ]

  pub delete_older_than-IsNumbered :
      (now max_age : ℕ) (a : Option Text) (b : Bool) (l : ActivityLog D)
      → IsNumbered l
      → IsNumbered (delete_older_than now max_age a b l).1
  unfolding delete_older_than
  delete_older_than-IsNumbered now max_age a b l v =
      saved_if _ (replaced (filter (kept now max_age a b) l.entries) l)
        (record { entries = Numbered-filter _ 1 l.next_id l.entries v.entries; stored = v.stored })
