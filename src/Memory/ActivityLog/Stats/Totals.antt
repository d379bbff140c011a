-- ===== src/Memory/ActivityLog/Stats/Totals.antt =====
-- What the statistics of an agent count.
use reth_monmouth.Common.{
  ℕ, ◌+◌, ◌≤◌, ◌≡◌, refl, sym, ap, Bool, true, false, Option, none, some, List, [], ◌∷◌, arith, ltb,
  or_else, filter, length, All, Some, Bool-cases, inl, inr, ◌⊎◌,
}
use reth_monmouth.Common.Text.{Text, text_eq}
use reth_monmouth.Memory.Entry.{
  ActivityActionType, SyncStatus, ActivityLogEntry, same_action, same_action_self, has_status,
}
use reth_monmouth.Memory.ActivityLog.{ActivityLog}
use reth_monmouth.Memory.ActivityLog.Stats.{
  ActionCounts, count_of, set_count, Stats, best, no_stats, add_entry, add_entries, get_stats,
}

same_action-true : (a b : ActivityActionType) → same_action a b ≡ true → a ≡ b
same_action-true ActivityActionType.transaction ActivityActionType.transaction h = refl
same_action-true ActivityActionType.signature ActivityActionType.signature h = refl
same_action-true ActivityActionType.decision ActivityActionType.decision h = refl
same_action-true ActivityActionType.error ActivityActionType.error h = refl
same_action-true _ _ h = cc

count_of-set_count_self :
    (a : ActivityActionType) (n : ℕ) (counts : ActionCounts)
    → count_of a (set_count a n counts) ≡ some n
unfolding count_of set_count
count_of-set_count_self a n [] = ground (arith, same_action_self a)
count_of-set_count_self a n ((b, m) ∷ counts) = ground (arith, count_of-set_count_self a n counts)

count_of-set_count_other :
    (a b : ActivityActionType) (n : ℕ) (counts : ActionCounts)
    → same_action b a ≡ false
    → count_of a (set_count b n counts) ≡ count_of a counts
unfolding count_of set_count
count_of-set_count_other a b n [] h = ground arith
count_of-set_count_other a b n ((c, m) ∷ counts) h = elim (Bool-cases (same_action c b)) [
  | inl same' ↦ rw same' (rw (same_action-true c b same') (rw h refl))
  | inr other' ↦ ground (arith, count_of-set_count_other a b n counts h)
]

module _ {D : Type 0} where
  -- The timestamp of an entry that stands in the relation to the timestamps of all; none without
  -- entries.
  abbrev pub IsBest : (ℕ → ℕ → Type 0) → List (ActivityLogEntry D) → Option ℕ → Type 0
  IsBest R es none = es ≡ []
  IsBest R es (some t) = Some (λ e. e.timestamp ≡ t) es × All (λ e. R t e.timestamp) es

  counted :
      (a : ActivityActionType) (e : ActivityLogEntry D) (s : Stats)
      → same_action e.action_type a ≡ true
      → or_else (count_of a (add_entry e s).by_action_type) 0
        ≡ or_else (count_of a s.by_action_type) 0 + 1
  unfolding add_entry
  counted a e s h =
      rw (same_action-true e.action_type a h, count_of-set_count_self a _ s.by_action_type) refl

  uncounted :
      (a : ActivityActionType) (e : ActivityLogEntry D) (s : Stats)
      → same_action e.action_type a ≡ false
      → count_of a (add_entry e s).by_action_type ≡ count_of a s.by_action_type
  unfolding add_entry
  uncounted a e s h = count_of-set_count_other a e.action_type _ s.by_action_type h

  add_entries-count_of :
      (a : ActivityActionType) (es : List (ActivityLogEntry D)) (s : Stats)
      → or_else (count_of a (add_entries es s).by_action_type) 0
        ≡ or_else (count_of a s.by_action_type) 0
          + length (filter (λ e. same_action e.action_type a) es)
  unfolding add_entries add_entry
  add_entries-count_of a [] s = omega arith
  add_entries-count_of a (e ∷ es) s = elim (Bool-cases (same_action e.action_type a)) [
    | inl same' ↦
        rw same' (omega (arith, add_entries-count_of a es (add_entry e s), counted a e s same'))
    | inr other' ↦ rw other' (
        omega (
          arith,
          add_entries-count_of a es (add_entry e s),
          ap (λ o. or_else o 0) (uncounted a e s other'),
        ))
  ]

  add_entries-pending :
      (es : List (ActivityLogEntry D)) (s : Stats)
      → (add_entries es s).pending
        ≡ s.pending + length (filter (λ e. has_status SyncStatus.pending e.sync_status) es)
  unfolding add_entries add_entry
  add_entries-pending [] s = omega arith
  add_entries-pending (e ∷ es) s = ground (arith, add_entries-pending es (add_entry e s))

  add_entries-synced :
      (es : List (ActivityLogEntry D)) (s : Stats)
      → (add_entries es s).synced
        ≡ s.synced + length (filter (λ e. has_status SyncStatus.synced e.sync_status) es)
  unfolding add_entries add_entry
  add_entries-synced [] s = omega arith
  add_entries-synced (e ∷ es) s = ground (arith, add_entries-synced es (add_entry e s))

  add_entries-conflicts :
      (es : List (ActivityLogEntry D)) (s : Stats)
      → (add_entries es s).conflicts
        ≡ s.conflicts + length (filter (λ e. has_status SyncStatus.conflict e.sync_status) es)
  unfolding add_entries add_entry
  add_entries-conflicts [] s = omega arith
  add_entries-conflicts (e ∷ es) s = ground (arith, add_entries-conflicts es (add_entry e s))

  -- The best timestamp of the entries and of the one that is given.
  abbrev best_of : (ℕ → ℕ → Bool) → List (ActivityLogEntry D) → Option ℕ → Option ℕ
  best_of better [] o = o
  best_of better (e ∷ es) o = best_of better es (best better e.timestamp o)

  add_entries-oldest :
      (es : List (ActivityLogEntry D)) (s : Stats)
      → (add_entries es s).oldest_timestamp ≡ best_of ltb es s.oldest_timestamp
  unfolding add_entries add_entry
  add_entries-oldest [] s = refl
  add_entries-oldest (e ∷ es) s = add_entries-oldest es (add_entry e s)

  add_entries-newest :
      (es : List (ActivityLogEntry D)) (s : Stats)
      → (add_entries es s).newest_timestamp ≡ best_of (λ t b. ltb b t) es s.newest_timestamp
  unfolding add_entries add_entry
  add_entries-newest [] s = refl
  add_entries-newest (e ∷ es) s = add_entries-newest es (add_entry e s)

  -- What holds between the best timestamp and any other.
  module _ (better : ℕ → ℕ → Bool) (R : ℕ → ℕ → Type 0) (reflexive : (t : ℕ) → R t t)
      (transitive : (x y z : ℕ) → R x y → R y z → R x z)
      (won : (x y : ℕ) → better x y ≡ true → R x y)
      (lost : (x y : ℕ) → better x y ≡ false → R y x) where
    best_from :
        (es : List (ActivityLogEntry D)) (b : ℕ)
        → (t : ℕ) × (best_of better es (some b) ≡ some t)
          × R t b
          × All (λ e. R t e.timestamp) es
          × ((t ≡ b) ⊎ Some (λ e. e.timestamp ≡ t) es)
    best_from [] b = (b, refl, reflexive b, tt, inl refl)
    best_from (e ∷ es) b = elim (Bool-cases (better e.timestamp b)) [
      | inl wins ↦
          let (t, made, below, rest, from) = best_from es e.timestamp in
          rw wins (
            t,
            made,
            transitive t e.timestamp b below (won e.timestamp b wins),
            (below, rest),
            inr (elim from [ inl here ↦ inl (sym here) | inr there ↦ inr there ]),
          )
      | inr loses ↦
          let (t, made, below, rest, from) = best_from es b in
          rw loses (
            t,
            made,
            below,
            (transitive t b e.timestamp below (lost e.timestamp b loses), rest),
            elim from [ inl here ↦ inl here | inr there ↦ inr (inr there) ],
          )
    ]

    -- Without entries there is no best timestamp; otherwise it is one of theirs and stands in the
    -- relation to them all.
    best_of_lem : (es : List (ActivityLogEntry D)) → IsBest R es (best_of better es none)
    best_of_lem [] = refl
    best_of_lem (e ∷ es) =
        let (t, made, below, rest, from) = best_from es e.timestamp in
        rw made (elim from [ inl here ↦ inl (sym here) | inr there ↦ inr there ], (below, rest))

  -- The statistics of an agent: the total is the number of its entries; each type and each status is
  -- counted as often as its entries have it, an entry without a status for none; the oldest timestamp
  -- is the least and the newest the greatest of theirs, and there is none exactly without entries.
  pub get_stats_lem :
      (agent_id : Text) (l : ActivityLog D)
      → let entries = filter (λ e. text_eq e.agent_id agent_id) l.entries in
        let stats = (get_stats agent_id l).1 in
        ((get_stats agent_id l).0 ≡ length entries)
        × ((a : ActivityActionType)
            → or_else (count_of a stats.by_action_type) 0
              ≡ length (filter (λ e. same_action e.action_type a) entries))
        × (stats.pending
            ≡ length (filter (λ e. has_status SyncStatus.pending e.sync_status) entries))
        × (stats.synced ≡ length (filter (λ e. has_status SyncStatus.synced e.sync_status) entries))
        × (stats.conflicts
            ≡ length (filter (λ e. has_status SyncStatus.conflict e.sync_status) entries))
        × IsBest (λ t u. t ≤ u) entries stats.oldest_timestamp
        × IsBest (λ t u. u ≤ t) entries stats.newest_timestamp
  unfolding get_stats no_stats count_of
  get_stats_lem agent_id l = (
    refl,
    λ a. omega (arith, add_entries-count_of a entries no_stats),
    omega (arith, add_entries-pending entries no_stats),
    omega (arith, add_entries-synced entries no_stats),
    omega (arith, add_entries-conflicts entries no_stats),
    rw (add_entries-oldest entries no_stats) (
        best_of_lem ltb (λ t u. t ≤ u) (λ t. omega arith) (λ x y z h k. omega arith)
          (λ x y h. ground arith) (λ x y h. ground arith) entries),
    rw (add_entries-newest entries no_stats) (
        best_of_lem (λ t b. ltb b t) (λ t u. u ≤ t) (λ t. omega arith) (λ x y z h k. omega arith)
          (λ x y h. ground arith) (λ x y h. ground arith) entries),
  )
    where
      entries : List (ActivityLogEntry D)
      entries = filter (λ e. text_eq e.agent_id agent_id) l.entries
