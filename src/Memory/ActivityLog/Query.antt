-- ===== src/Memory/ActivityLog/Query.antt =====
-- What a query returns.
use reth_monmouth.Common.{
  ℕ, zero, suc, ◌≤◌, ◌≡◌, refl, ap, Bool, true, ◌&&◌, Option, none, some, List, [], ◌∷◌, arith, leb,
  or_else, filter, take, drop, length, All, Bool-cases, inl, inr,
}
use mathlib.Core.List.{Perm}
use reth_monmouth.Common.Text.{text_eq}
use reth_monmouth.Memory.Entry.{ActivityLogEntry, same_action}
use reth_monmouth.Memory.Sort.{sort, sort-Perm, sort-IsOrdered, IsOrdered, sort-All, length-sort}
use reth_monmouth.Memory.ActivityLog.{
  ActivityLog, QueryOptions, Order, query, selected, in_order, when_set, when_named, when_positive,
}

-- The limit, where it is set and not zero.
abbrev pub positive : Option ℕ → Option ℕ
positive (some (suc n)) = some (suc n)
positive _ = none

module _ {D : Type 0} where
  -- The entry passes every filter that is set.
  abbrev pub matches : QueryOptions → ActivityLogEntry D → Bool
  matches o e =
      when_named o.agent_id (λ a. text_eq e.agent_id a)
      && when_set o.action_type (λ a. same_action e.action_type a)
      && when_set o.start_time (λ t. leb t e.timestamp)
      && when_set o.end_time (λ t. leb e.timestamp t)

  filter-filter :
      (p q : ActivityLogEntry D → Bool) (es : List (ActivityLogEntry D))
      → filter q (filter p es) ≡ filter (λ e. p e && q e) es
  filter-filter p q [] = refl
  filter-filter p q (e ∷ es) = ground (arith, filter-filter p q es)

  selected-eq-filter :
      (o : QueryOptions) (es : List (ActivityLogEntry D)) → selected o es ≡ filter (matches o) es
  unfolding selected
  selected-eq-filter o [] = refl
  selected-eq-filter o (e ∷ es) = ground (arith, selected-eq-filter o es)

  filter-All :
      (p : ActivityLogEntry D → Bool) (es : List (ActivityLogEntry D))
      → All (λ e. p e ≡ true) (filter p es)
  filter-All p [] = tt
  filter-All p (e ∷ es) = elim (Bool-cases (p e)) [
    | inl yes' ↦ rw yes' (yes', filter-All p es)
    | inr no' ↦ rw no' (filter-All p es)
  ]

  module _ (P : ActivityLogEntry D → Type 0) where
    take-All : (n : ℕ) (es : List (ActivityLogEntry D)) → All P es → All P (take n es)
    take-All zero es h = tt
    take-All (suc n) [] h = tt
    take-All (suc n) (e ∷ es) (h, hs) = (h, take-All n es hs)

    drop-All : (n : ℕ) (es : List (ActivityLogEntry D)) → All P es → All P (drop n es)
    drop-All zero es h = h
    drop-All (suc n) [] h = tt
    drop-All (suc n) (e ∷ es) (h, hs) = drop-All n es hs

  take-IsOrdered :
      (before : ActivityLogEntry D → ActivityLogEntry D → Bool) (n : ℕ)
      (es : List (ActivityLogEntry D))
      → IsOrdered before es
      → IsOrdered before (take n es)
  take-IsOrdered before zero es h = tt
  take-IsOrdered before (suc n) [] h = tt
  take-IsOrdered before (suc n) (e ∷ es) (h, hs) =
      (take-All (λ y. before e y ≡ true) n es h, take-IsOrdered before n es hs)

  drop-IsOrdered :
      (before : ActivityLogEntry D → ActivityLogEntry D → Bool) (n : ℕ)
      (es : List (ActivityLogEntry D))
      → IsOrdered before es
      → IsOrdered before (drop n es)
  drop-IsOrdered before zero es h = h
  drop-IsOrdered before (suc n) [] h = tt
  drop-IsOrdered before (suc n) (e ∷ es) (h, hs) = drop-IsOrdered before n es hs

  -- What holds of every prefix, or of every suffix, holds after an optional cut.
  cut {ℓ} :
      (P : List (ActivityLogEntry D) → Type ℓ) (o : Option ℕ)
      (f : ℕ → List (ActivityLogEntry D) → List (ActivityLogEntry D))
      (es : List (ActivityLogEntry D))
      → ((n : ℕ) → P (f n es))
      → P es
      → P (when_positive o f es)
  cut P none f es step here = here
  cut P (some zero) f es step here = here
  cut P (some (suc n)) f es step here = step (suc n)

  take-le : (n : ℕ) (es : List (ActivityLogEntry D)) → length (take n es) ≤ n
  take-le zero es = omega arith
  take-le (suc n) [] = omega arith
  take-le (suc n) (e ∷ es) = omega (arith, take-le n es)

  in_order-IsOrdered :
      (d : Order) (es : List (ActivityLogEntry D)) → IsOrdered (in_order d) (sort (in_order d) es)
  in_order-IsOrdered Order.asc es =
      sort-IsOrdered (in_order Order.asc) (λ x y h. ground arith) (λ x y z h k. ground arith) es
  in_order-IsOrdered Order.desc es =
      sort-IsOrdered (in_order Order.desc) (λ x y h. ground arith) (λ x y z h k. ground arith) es

  limited :
      (o : Option ℕ) (es : List (ActivityLogEntry D)) (n : ℕ)
      → length es ≤ n
      → length (when_positive o take es) ≤ or_else (positive o) n
  limited none es n h = h
  limited (some zero) es n h = h
  limited (some (suc k)) es n h = take-le (suc k) es

  drop-le : (n : ℕ) (es : List (ActivityLogEntry D)) → length (drop n es) ≤ length es
  drop-le zero es = omega arith
  drop-le (suc n) [] = omega arith
  drop-le (suc n) (e ∷ es) = omega (arith, drop-le n es)

  filter-le :
      (p : ActivityLogEntry D → Bool) (es : List (ActivityLogEntry D))
      → length (filter p es) ≤ length es
  filter-le p [] = omega arith
  filter-le p (e ∷ es) = ground (arith, filter-le p es)

  -- A query returns entries that match its filters, in the order that it asks for (the newest first
  -- if it does not say), and no more of them than its limit if that is set and positive.
  pub query_lem :
      (o : QueryOptions) (l : ActivityLog D)
      → All (λ e. matches o e ≡ true) (query o l)
        × IsOrdered (in_order (or_else o.order Order.desc)) (query o l)
        × (length (query o l) ≤ or_else (positive o.limit) (length l.entries))
  unfolding query
  query_lem o l = (
    cut (All (λ e. matches o e ≡ true)) o.limit take _ (λ n. take-All _ n _ paged) paged,
    cut (IsOrdered before) o.limit take _ (λ n. take-IsOrdered before n _ paged_order) paged_order,
    limited o.limit _ (length l.entries) shrinks,
  )
    where
      before : ActivityLogEntry D → ActivityLogEntry D → Bool
      before = in_order (or_else o.order Order.desc)

      sorted : List (ActivityLogEntry D)
      sorted = sort before (selected o l.entries)

      matching : All (λ e. matches o e ≡ true) sorted
      matching =
          sort-All before (λ e. matches o e ≡ true) (selected o l.entries)
            (rw (selected-eq-filter o l.entries) (filter-All (matches o) l.entries))

      paged : All (λ e. matches o e ≡ true) (when_positive o.offset drop sorted)
      paged =
          cut (All (λ e. matches o e ≡ true)) o.offset drop sorted
            (λ n. drop-All _ n sorted matching) matching

      shrinks : length (when_positive o.offset drop sorted) ≤ length l.entries
      shrinks = omega (
        arith,
        cut (λ es. length es ≤ length sorted) o.offset drop sorted (λ n. drop-le n sorted)
            (omega arith),
        length-sort before (selected o l.entries),
        ap length (selected-eq-filter o l.entries),
        filter-le (matches o) l.entries,
      )

      paged_order : IsOrdered before (when_positive o.offset drop sorted)
      paged_order =
          cut (IsOrdered before) o.offset drop sorted
            (λ n. drop-IsOrdered before n sorted (in_order-IsOrdered _ (selected o l.entries)))
            (in_order-IsOrdered _ (selected o l.entries))

  -- Without offset and limit, a query returns every entry that matches, each as often as it is there.
  query-Perm :
      (o : QueryOptions) (l : ActivityLog D)
      → o.offset ≡ none
      → o.limit ≡ none
      → Perm (query o l) (filter (matches o) l.entries)
  unfolding query
  query-Perm o l no_offset no_limit =
      simp (no_limit, no_offset, ← selected-eq-filter o l.entries)
        (sort-Perm (in_order (or_else o.order Order.desc)) (selected o l.entries))
