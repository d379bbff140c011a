-- ===== src/Memory/ActivityLog/Retention.antt =====
-- The retention policy: what `deleteOlderThan` drops.
use reth_monmouth.Common.{
  ℕ, ◌+◌, ◌-◌, ◌≤◌, ◌≡◌, ◌≢◌, ◌⊎◌, ◌↔◌, refl, Bool, true, false, not, ◌&&◌, ◌||◌, Option, none,
  some, List, [], ◌∷◌, arith, leb, filter, length, Bool-cases, inl, inr,
}
use reth_monmouth.Common.Text.{Text, text_eq, text_eq_iff}
use reth_monmouth.Memory.Entry.{ActivityLogEntry, SyncStatus, has_status}
use reth_monmouth.Memory.ActivityLog.{ActivityLog, delete_older_than, kept, save, when_named}

-- What is left of a list, in order, when the members that have no leave to stay are dropped.
pub data Purged {A : Type 0} (P : A → Type 0) : List A → List A → Type 0 where
  done : Purged P [] []
  keep : (a : A) (old new : List A) → P a → Purged P old new → Purged P (a ∷ old) (a ∷ new)
  dropped : (a : A) (old new : List A) → ¬ P a → Purged P old new → Purged P (a ∷ old) new

filter-Purged :
    {A : Type 0} (p : A → Bool) (P : A → Type 0)
    → ((a : A) → (p a ≡ true) ↔ P a)
    → (xs : List A) → Purged P xs (filter p xs)
filter-Purged p P p_iff [] = done
filter-Purged p P p_iff (a ∷ xs) = elim (Bool-cases (p a)) [
  | inl stays ↦ rw stays (keep a xs _ ((p_iff a).0 stays) (filter-Purged p P p_iff xs))
  | inr goes ↦ rw goes (dropped a xs _ (λ h. cc ((p_iff a).1 h)) (filter-Purged p P p_iff xs))
]

-- The agent that is named, if any, is another one; the empty text names none.
abbrev pub IsOther : Option Text → Text → Type 0
IsOther none agent = ⊥
IsOther (some []) agent = ⊥
IsOther (some (c ∷ s)) agent = agent ≢ (c ∷ s)

-- An entry that may stay: it is not older than the age, or of another agent than the one named, or
-- only synced entries may go and it is not synced.
abbrev pub MayStay : {D : Type 0} → ℕ → ℕ → Option Text → Bool → ActivityLogEntry D → Type 0
MayStay now max_age agent_id only_synced e =
    ((now ≤ e.timestamp + max_age) ⊎ IsOther agent_id e.agent_id)
    ⊎ ((only_synced ≡ true) × (e.sync_status ≢ some SyncStatus.synced))

or_iff :
    {P Q : Type 0} (p q : Bool) → ((p ≡ true) ↔ P) → ((q ≡ true) ↔ Q) → (p || q ≡ true) ↔ (P ⊎ Q)
or_iff true q h k = (λ _. inl (h.0 refl), λ _. refl)
or_iff {P} {Q} false q h k = (λ e. inr (k.0 e), back)
  where
    back : P ⊎ Q → false || q ≡ true
    back (inl x) = cc (h.1 x)
    back (inr y) = k.1 y

and_iff : {Q : Type 0} (p q : Bool) → ((q ≡ true) ↔ Q) → (p && q ≡ true) ↔ ((p ≡ true) × Q)
and_iff true q k = (λ e. (refl, k.0 e), λ (_, y). k.1 y)
and_iff false q k = (λ e. cc, λ (e, _). e)

IsOther-iff :
    (a : Option Text) (agent : Text)
    → (not (when_named a (λ x. text_eq agent x)) ≡ true) ↔ IsOther a agent
IsOther-iff none agent = (λ e. cc, λ h. absurd h)
IsOther-iff (some []) agent = (λ e. cc, λ h. absurd h)
IsOther-iff (some (c ∷ s)) agent =
    let (to, back) = text_eq_iff agent (c ∷ s) in
    (
      λ e h. cc (back h),
      λ h. elim (Bool-cases (text_eq agent (c ∷ s))) [
        | inl same ↦ absurd (h (to same))
        | inr other ↦ rw other refl
      ],
    )

unsynced_iff :
    (s : Option SyncStatus)
    → (not (has_status SyncStatus.synced s) ≡ true) ↔ (s ≢ some SyncStatus.synced)
unsynced_iff none = (λ e h. cc, λ h. refl)
unsynced_iff (some SyncStatus.pending) = (λ e h. cc, λ h. refl)
unsynced_iff (some SyncStatus.synced) = (λ e h. cc, λ h. absurd (h refl))
unsynced_iff (some SyncStatus.conflict) = (λ e h. cc, λ h. refl)

module _ {D : Type 0} where
  delete_older_than-entries :
      (now max_age : ℕ) (a : Option Text) (b : Bool) (l : ActivityLog D)
      → (delete_older_than now max_age a b l).1.entries ≡ filter (kept now max_age a b) l.entries
  unfolding delete_older_than save
  delete_older_than-entries now max_age a b l = ground arith

  delete_count :
      (now max_age : ℕ) (a : Option Text) (b : Bool) (l : ActivityLog D)
      → (delete_older_than now max_age a b l).0
        ≡ length l.entries - length (filter (kept now max_age a b) l.entries)
  unfolding delete_older_than
  delete_count now max_age a b l = refl

  length-filter :
      (p : ActivityLogEntry D → Bool) (es : List (ActivityLogEntry D))
      → length (filter p es) + length (filter (λ e. not (p e)) es) ≡ length es
  length-filter p [] = omega arith
  length-filter p (e ∷ es) = ground (arith, length-filter p es)

  kept_iff :
      (now max_age : ℕ) (a : Option Text) (b : Bool) (e : ActivityLogEntry D)
      → (kept now max_age a b e ≡ true) ↔ MayStay now max_age a b e
  kept_iff now max_age a b e =
      or_iff (leb now (e.timestamp + max_age) || not (when_named a (λ x. text_eq e.agent_id x))) _
        (or_iff (leb now (e.timestamp + max_age)) _ (λ h. ground arith, λ h. ground arith)
          (IsOther-iff a e.agent_id))
        (and_iff b _ (unsynced_iff e.sync_status))

  -- Whatever the age, the agent and the option are, deleting old entries leaves, in their order,
  -- exactly the entries that may stay, those that are not older than the age, that belong to another
  -- agent than the one named or, when only synced entries may go, that are not synced; and it reports
  -- how many are gone.
  pub delete_older_than-Purged :
      (now max_age : ℕ) (a : Option Text) (b : Bool) (l : ActivityLog D)
      → let (n, l') = delete_older_than now max_age a b l in
        Purged (MayStay now max_age a b) l.entries l'.entries
        × (n + length l'.entries ≡ length l.entries)
  delete_older_than-Purged now max_age a b l = rw (delete_older_than-entries now max_age a b l) (
    filter-Purged p _ (kept_iff now max_age a b) l.entries,
    omega (arith, delete_count now max_age a b l, length-filter p l.entries),
  )
    where
      p : ActivityLogEntry D → Bool
      p = kept now max_age a b
