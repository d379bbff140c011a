-- ===== src/Common/Assoc.antt =====
-- A JavaScript `Map` with string keys, in insertion order.
use mathlib.Core.Path.{◌≡◌}
use mathlib.Core.Logic.{◌≢◌}
use mathlib.Core.Option.{Option, none, some}
use mathlib.Core.List.{List, [], ◌∷◌}
use native.Mathlib.Omega.{arith}
use mathlib.Core.Logic.{inl, inr}
use reth_monmouth.Common.Tests.{if◌then◌else◌, Bool-cases}
use reth_monmouth.Common.Text.{Text, text_eq, text_eq_self, text_eq-true}

abbrev pub Assoc {ℓ} : Type ℓ → Type ℓ
Assoc V = List (Text × V)

module _ {ℓ} {V : Type ℓ} where
  -- `map.get(k)`
  unfoldable pub lookup : Text → Assoc V → Option V
  unfolding text_eq
  lookup k [] = none
  lookup k ((j, v) ∷ m) = if text_eq k j then some v else lookup k m

  -- `map.set(k, v)`: a key that is present keeps its place.
  unfoldable pub insert : Text → V → Assoc V → Assoc V
  unfolding text_eq
  insert k v [] = (k, v) ∷ []
  insert k v ((j, w) ∷ m) = if text_eq k j then (j, v) ∷ m else (j, w) ∷ insert k v m

  -- `map.delete(k)`
  unfoldable pub erase : Text → Assoc V → Assoc V
  unfolding text_eq
  erase k [] = []
  erase k ((j, w) ∷ m) = if text_eq k j then m else (j, w) ∷ erase k m

  -- `[...map.values()]`
  abbrev pub values : Assoc V → List V
  values [] = []
  values ((k, v) ∷ m) = v ∷ values m

  pub lookup-insert_self : (k : Text) (v : V) (m : Assoc V) → lookup k (insert k v m) ≡ some v
  unfolding lookup insert
  lookup-insert_self k v [] = ground (arith, text_eq_self k)
  lookup-insert_self k v ((j, w) ∷ m) = ground (arith, lookup-insert_self k v m, text_eq_self k)

  pub lookup-insert_ne :
      (k j : Text) (v : V) (m : Assoc V) → k ≢ j → lookup k (insert j v m) ≡ lookup k m
  unfolding lookup insert
  lookup-insert_ne k j v [] h = ground (arith, text_eq-true k j)
  lookup-insert_ne k j v ((i, w) ∷ m) h =
      ground
        (arith, lookup-insert_ne k j v m h, text_eq-true k j, text_eq-true k i, text_eq-true j i)

  -- `map.get(k)` after `map.set(j, v)`.
  pub lookup-insert :
      (k j : Text) (v : V) (m : Assoc V)
      → lookup k (insert j v m) ≡ (if text_eq k j then some v else lookup k m)
  lookup-insert k j v m = elim (Bool-cases (text_eq k j)) [
    | inl same ↦ rw (same, text_eq-true k j same) (lookup-insert_self j v m)
    | inr other ↦ rw other (lookup-insert_ne k j v m (λ e. cc (other, text_eq_self k, e)))
  ]
