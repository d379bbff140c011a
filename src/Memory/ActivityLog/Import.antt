-- ===== src/Memory/ActivityLog/Import.antt =====
-- Importing entries: the same entries a second time add nothing.
use reth_monmouth.Common.{
  ℕ, suc, ◌+◌, ◌≡◌, refl, Bool, true, ◌||◌, List, [], ◌∷◌, ◌++◌, arith, any, if◌then◌else◌,
  Bool-cases, inl, inr, All, length, length-append,
}
use reth_monmouth.Common.Text.{text_eq_self}
use reth_monmouth.Memory.Entry.{ActivityLogEntry, same_action_self}
use reth_monmouth.Memory.ActivityLog.{
  ActivityLog, import, import_from, same_event, renumbered, save,
}

module _ {D : Type 0} where
  -- The log holds an entry of the same agent, time and type.
  abbrev pub Known : ActivityLog D → ActivityLogEntry D → Type 0
  Known l entry = any (same_event entry) l.entries ≡ true

  any-append :
      (p : ActivityLogEntry D → Bool) (es : List (ActivityLogEntry D)) (e : ActivityLogEntry D)
      → any p (es ++ e ∷ []) ≡ (any p es || p e)
  any-append p [] e = ground arith
  any-append p (x ∷ xs) e = ground (arith, any-append p xs e)

  same_event-renumbered : (id : ℕ) (e : ActivityLogEntry D) → same_event e (renumbered id e) ≡ true
  unfolding same_event
  same_event-renumbered id e =
      ground (arith, text_eq_self e.agent_id, same_action_self e.action_type)

  -- One round of the import loop.
  abbrev stepped : ActivityLogEntry D → ActivityLog D → ActivityLog D
  stepped entry l = if any (same_event entry) l.entries then l else record l {
    entries = l.entries ++ renumbered l.next_id entry ∷ [];
    next_id = suc l.next_id;
  }

  Known-stepped_self : (e : ActivityLogEntry D) (l : ActivityLog D) → Known (stepped e l) e
  Known-stepped_self e l = elim (Bool-cases (any (same_event e) l.entries)) [
    | inl there ↦ rw there there
    | inr fresh ↦ rw fresh (
        rw (any-append (same_event e) l.entries (renumbered l.next_id e))
          (ground (arith, same_event-renumbered l.next_id e)))
  ]

  Known-stepped : (e x : ActivityLogEntry D) (l : ActivityLog D) → Known l x → Known (stepped e l) x
  Known-stepped e x l h = elim (Bool-cases (any (same_event e) l.entries)) [
    | inl there ↦ rw there h
    | inr fresh ↦
        rw fresh (rw (any-append (same_event x) l.entries (renumbered l.next_id e)) (rw h refl))
  ]

  Known-import_from :
      (x : ActivityLogEntry D) (es : List (ActivityLogEntry D)) (n : ℕ) (l : ActivityLog D)
      → Known l x
      → Known (import_from es n l).1 x
  unfolding import_from
  Known-import_from x [] n l h = h
  Known-import_from x (e ∷ es) n l h =
      Known-import_from x es _ (stepped e l) (Known-stepped e x l h)

  import_from-Known :
      (es : List (ActivityLogEntry D)) (n : ℕ) (l : ActivityLog D)
      → All (Known (import_from es n l).1) es
  unfolding import_from
  import_from-Known [] n l = tt
  import_from-Known (e ∷ es) n l = (
    Known-import_from e es _ (stepped e l) (Known-stepped_self e l),
    import_from-Known es _ (stepped e l),
  )

  import_from_nothing_new :
      (es : List (ActivityLogEntry D)) (n : ℕ) (l : ActivityLog D)
      → All (Known l) es
      → import_from es n l ≡ (n, l)
  unfolding import_from
  import_from_nothing_new [] n l h = refl
  import_from_nothing_new (e ∷ es) n l (h, hs) =
      rw (h, import_from) (import_from_nothing_new es n l hs)

  length-import_from :
      (es : List (ActivityLogEntry D)) (n : ℕ) (l : ActivityLog D)
      → let (m, l') = import_from es n l in length l'.entries + n ≡ length l.entries + m
  unfolding import_from
  length-import_from [] n l = refl
  length-import_from (e ∷ es) n l = elim (Bool-cases (any (same_event e) l.entries)) [
    | inl there ↦ rw (there, import_from) (length-import_from es n l)
    | inr fresh ↦
        rw (fresh, import_from)
          (omega (
            arith,
            length-import_from es (suc n) (stepped' e l),
            length-append l.entries (renumbered l.next_id e ∷ []),
          ))
  ]
    where
      stepped' : ActivityLogEntry D → ActivityLog D → ActivityLog D
      stepped' e l = record l {
        entries = l.entries ++ renumbered l.next_id e ∷ [];
        next_id = suc l.next_id;
      }

  import-entries :
      (es : List (ActivityLogEntry D)) (l : ActivityLog D)
      → (import es l).1.entries ≡ (import_from es 0 l).1.entries
  unfolding import save
  import-entries es l = ground arith

  import-count :
      (es : List (ActivityLogEntry D)) (l : ActivityLog D)
      → (import es l).0 ≡ (import_from es 0 l).0
  unfolding import
  import-count es l = refl

  import_nothing_new :
      (es : List (ActivityLogEntry D)) (l : ActivityLog D) → All (Known l) es → import es l ≡ (0, l)
  unfolding import
  import_nothing_new es l h = rw (import_from_nothing_new es 0 l h)

  All-Known :
      (es : List (ActivityLogEntry D)) (l l' : ActivityLog D)
      → l'.entries ≡ l.entries
      → All (Known l) es
      → All (Known l') es
  All-Known [] l l' same h = tt
  All-Known (e ∷ es) l l' same (h, hs) = (rw same h, All-Known es l l' same hs)

  -- An import reports by how much the log grew, every imported entry is then known to it, and the
  -- same import again reports zero and changes nothing.
  pub import_twice :
      (es : List (ActivityLogEntry D)) (l : ActivityLog D)
      → let (n, l') = import es l in
        (length l'.entries ≡ length l.entries + n) × All (Known l') es × (import es l' ≡ (0, l'))
  import_twice es l =
      let known =
        All-Known es (import_from es 0 l).1 (import es l).1 (import-entries es l)
          (import_from-Known es 0 l) in
      (
        rw (import-entries es l, import-count es l) (omega (arith, length-import_from es 0 l)),
        known,
        import_nothing_new es (import es l).1 known,
      )
