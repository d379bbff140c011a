-- ===== src/Memory/Sort.antt =====
-- `Array.prototype.sort` by a number: the stable sort, as insertion from the right.
use reth_monmouth.Common.{
  ◌≡◌, refl, Bool, true, false, List, [], ◌∷◌, arith, if◌then◌else◌, All, Some, All-take, take,
  length, ℕ, ◌⊎◌, zero, suc, Bool-cases, inl, inr,
}
use mathlib.Core.List.{Perm}
use mathlib.Core.List.Perm

module _ {ℓ} {A : Type ℓ} (before : A → A → Bool) where
  -- Puts `x` in front of the first member that it may stand before.
  place : A → List A → List A
  place x [] = x ∷ []
  place x (y ∷ ys) = if before x y then x ∷ y ∷ ys else y ∷ place x ys

  unfoldable pub sort : List A → List A
  unfolding place
  sort [] = []
  sort (x ∷ xs) = place x (sort xs)

  place-Perm : (x : A) (xs : List A) → Perm (place x xs) (x ∷ xs)
  unfolding place
  place-Perm x [] = Perm.refl (x ∷ [])
  place-Perm x (y ∷ ys) = elim (Bool-cases (before x y)) [
    | inl first ↦ rw first (Perm.refl _)
    | inr later ↦ rw later (Perm.trans (Perm.cons y (place-Perm x ys)) (Perm.swap _ _ _))
  ]

  -- Sorting drops and adds nothing.
  pub sort-Perm : (xs : List A) → Perm (sort xs) xs
  unfolding sort
  sort-Perm [] = Perm.refl []
  sort-Perm (x ∷ xs) = Perm.trans (place-Perm x (sort xs)) (Perm.cons x (sort-Perm xs))

  length-place : (x : A) (xs : List A) → length (place x xs) ≡ suc (length xs)
  unfolding place
  length-place x [] = refl
  length-place x (y ∷ ys) = ground (arith, length-place x ys)

  pub length-sort : (xs : List A) → length (sort xs) ≡ length xs
  unfolding sort
  length-sort [] = refl
  length-sort (x ∷ xs) = omega (arith, length-place x (sort xs), length-sort xs)

  -- Each member may stand before all that follow.
  abbrev pub IsOrdered : List A → Type 0
  IsOrdered [] = Unit
  IsOrdered (x ∷ xs) = All (λ y. before x y ≡ true) xs × IsOrdered xs

  pub IsOrdered-take : (n : ℕ) (xs : List A) → IsOrdered xs → IsOrdered (take n xs)
  IsOrdered-take zero xs h = tt
  IsOrdered-take (suc n) [] h = tt
  IsOrdered-take (suc n) (x ∷ xs) (h, hs) = (All-take _ n xs h, IsOrdered-take n xs hs)

  module _ (total : (x y : A) → before x y ≡ false → before y x ≡ true)
      (chain : (x y z : A) → before x y ≡ true → before y z ≡ true → before x z ≡ true) where
    All-before :
        (x y : A) (ys : List A)
        → before x y ≡ true
        → All (λ z. before y z ≡ true) ys
        → All (λ z. before x z ≡ true) ys
    All-before x y [] h k = tt
    All-before x y (z ∷ zs) h (k, ks) = (chain x y z h k, All-before x y zs h ks)

    All-place :
        (y x : A) (xs : List A)
        → before y x ≡ true
        → All (λ z. before y z ≡ true) xs
        → All (λ z. before y z ≡ true) (place x xs)
    unfolding place
    All-place y x [] h k = (h, tt)
    All-place y x (z ∷ zs) h (k, ks) = elim (Bool-cases (before x z)) [
      | inl first ↦ rw first (h, (k, ks))
      | inr later ↦ rw later (k, All-place y x zs h ks)
    ]

    place-IsOrdered : (x : A) (xs : List A) → IsOrdered xs → IsOrdered (place x xs)
    unfolding place
    place-IsOrdered x [] h = (tt, tt)
    place-IsOrdered x (y ∷ ys) (h, hs) = elim (Bool-cases (before x y)) [
      | inl first ↦ rw first ((first, All-before x y ys first h), (h, hs))
      | inr later ↦ rw later (All-place y x ys (total x y later) h, place-IsOrdered x ys hs)
    ]

    -- The result is in order, for a test that is total and transitive.
    pub sort-IsOrdered : (xs : List A) → IsOrdered (sort xs)
    unfolding sort
    sort-IsOrdered [] = tt
    sort-IsOrdered (x ∷ xs) = place-IsOrdered x (sort xs) (sort-IsOrdered xs)

  module _ (P : A → Type 0) where
    place-All : (x : A) (xs : List A) → P x → All P xs → All P (place x xs)
    unfolding place
    place-All x [] h k = (h, tt)
    place-All x (y ∷ ys) h (k, ks) = elim (Bool-cases (before x y)) [
      | inl first ↦ rw first (h, (k, ks))
      | inr later ↦ rw later (k, place-All x ys h ks)
    ]

    -- What holds of every member holds of every member of the sorted list.
    pub sort-All : (xs : List A) → All P xs → All P (sort xs)
    unfolding sort
    sort-All [] h = tt
    sort-All (x ∷ xs) (h, hs) = place-All x (sort xs) h (sort-All xs hs)

    place-Some_here : (x : A) (xs : List A) → P x → Some P (place x xs)
    unfolding place
    place-Some_here x [] h = inl h
    place-Some_here x (y ∷ ys) h = elim (Bool-cases (before x y)) [
      | inl first ↦ rw first (inl h)
      | inr later ↦ rw later (inr (place-Some_here x ys h))
    ]

    place-Some : (x : A) (xs : List A) → Some P xs → Some P (place x xs)
    unfolding place
    place-Some x [] h = absurd h
    place-Some x (y ∷ ys) h = elim (Bool-cases (before x y)) [
      | inl first ↦ rw first (inr h)
      | inr later ↦
          rw later (elim h [ inl here ↦ inl here | inr there ↦ inr (place-Some x ys there) ])
    ]

    -- What some member has, some member of the sorted list has.
    pub sort-Some : (xs : List A) → Some P xs → Some P (sort xs)
    unfolding sort
    sort-Some [] h = absurd h
    sort-Some (x ∷ xs) (inl here) = place-Some_here x (sort xs) here
    sort-Some (x ∷ xs) (inr there) = place-Some x (sort xs) (sort-Some xs there)

module _ {A : Type 0} (before : A → A → Bool) where
  before_member :
      (x hit : A) (xs : List A)
      → All (λ y. before x y ≡ true) xs
      → Some (λ y. y ≡ hit) xs
      → before x hit ≡ true
  before_member x hit [] h m = absurd m
  before_member x hit (y ∷ ys) (h, hs) (inl e) = rw e at h
  before_member x hit (y ∷ ys) (h, hs) (inr m) = before_member x hit ys hs m

  -- A member of a list in order is among the first `n`, or these are `n` and may all stand before it.
  pub taken_or_crowded_out :
      (n : ℕ) (xs : List A) (hit : A)
      → IsOrdered before xs
      → Some (λ y. y ≡ hit) xs
      → Some (λ y. y ≡ hit) (take n xs)
        ⊎ ((length (take n xs) ≡ n) × All (λ y. before y hit ≡ true) (take n xs))
  taken_or_crowded_out zero xs hit h m = inr (refl, tt)
  taken_or_crowded_out (suc n) [] hit h m = absurd m
  taken_or_crowded_out (suc n) (x ∷ xs) hit (h, hs) (inl e) = inl (inl e)
  taken_or_crowded_out (suc n) (x ∷ xs) hit (h, hs) (inr m) =
      elim (taken_or_crowded_out n xs hit hs m) [
        | inl taken ↦ inl (inr taken)
        | inr crowd ↦ inr (omega (arith, crowd.0), (before_member x hit xs h m, crowd.1))
      ]
