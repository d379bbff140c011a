-- ===== src/Common/Radix.antt =====
-- The loop `while (num > 0n) { out.unshift(num % b); num = num / b }`, and the number that digits
-- spell. The fuel of the loop is the number itself, which each turn makes smaller.
use Prim.Native.Nat.{ℕ, zero, suc, ◌+◌, ◌*◌, ◌/◌, ◌%◌, ◌<◌, ◌≤◌}
use mathlib.Core.Path.{◌≡◌, refl, ◌∙◌}
use mathlib.Core.List.{List, [], ◌∷◌, ◌++◌, append-nil}
use native.Mathlib.Nat.{
  mul-add-div_right, div-eq_of_lt, mul-add-mod_self_right, mod-eq_of_lt, div-lt_self, suc-mul,
  zero-mul, div-add-mod', mod-lt,
}
use mathlib.Core.Bool.{false}
use native.Mathlib.Omega.{arith}
use reth_monmouth.Common.Tests.{◌==◌, if◌then◌else◌}
use reth_monmouth.Common.Lists.{All}

digits_loop : ℕ → ℕ → ℕ → List ℕ → List ℕ
digits_loop b zero n acc = acc
digits_loop b (suc f) n acc =
    let rest = digits_loop b f (n / b) (n % b ∷ acc) in if n == 0 then acc else rest

-- The digits of `n` in base `b` in front of `acc`, none for 0.
unfoldable pub digits : ℕ → ℕ → List ℕ → List ℕ
unfolding digits_loop
digits b n acc = digits_loop b n n acc

-- The number that the digits continue: `num = num * b + digit` for each.
unfoldable pub value : ℕ → ℕ → List ℕ → ℕ
value b n [] = n
value b n (d ∷ ds) = value b (n * b + d) ds

abbrev pub AreDigits : ℕ → List ℕ → Type 0
AreDigits b = All (λ d. d < b)

-- A number starts with no zero.
abbrev pub StartsNonzero : List ℕ → Type 0
StartsNonzero [] = Unit
StartsNonzero (d ∷ ds) = 0 < d

module _ (b : ℕ) (large : 1 < b) where
  digits_loop_fuel :
      (f g n : ℕ) (acc : List ℕ) → n ≤ f → n ≤ g → digits_loop b f n acc ≡ digits_loop b g n acc
  unfolding digits_loop
  digits_loop_fuel zero zero n acc h k = refl
  digits_loop_fuel zero (suc g) n acc h k = ground arith
  digits_loop_fuel (suc f) zero n acc h k = ground arith
  digits_loop_fuel (suc f) (suc g) zero acc h k = refl
  digits_loop_fuel (suc f) (suc g) (suc n) acc h k =
      let smaller : suc n / b < suc n = div-lt_self (omega arith) large in
      let same = digits_loop_fuel f g (suc n / b) (suc n % b ∷ acc) (omega arith) (omega arith) in
      ground (arith, same)

  -- A number other than 0 ends in its remainder.
  pub digits_step : (n : ℕ) (acc : List ℕ) → 0 < n → digits b n acc ≡ digits b (n / b) (n % b ∷ acc)
  unfolding digits digits_loop
  digits_step zero acc h = ground arith
  digits_step (suc n) acc h =
      let smaller : suc n / b < suc n = div-lt_self (omega arith) large in
      let same =
        digits_loop_fuel n (suc n / b) (suc n / b) (suc n % b ∷ acc) (omega arith) (omega arith) in
      ground (arith, same)

  quotient : (m d : ℕ) → d < b → (m * b + d) / b ≡ m
  quotient m d h =
      let some_base : 0 < b = omega arith in
      omega (arith, mul-add-div_right some_base m d, div-eq_of_lt h)

  remainder : (m d : ℕ) → d < b → (m * b + d) % b ≡ d
  remainder m d h = mul-add-mod_self_right m b d ∙ mod-eq_of_lt h

  digits_snoc :
      (m d : ℕ) (acc : List ℕ)
      → d < b
      → 0 < m * b + d
      → digits b (m * b + d) acc ≡ digits b m (d ∷ acc)
  digits_snoc m d acc h k = digits_step (m * b + d) acc k ∙ rw (quotient m d h, remainder m d h)

  grown : (m d : ℕ) → 0 < m → 0 < m * b + d
  grown zero d k = ground arith
  grown (suc m) d k = omega (arith, suc-mul m b)

  -- Digits that continue a number are spelt behind it.
  digits-value_behind :
      (m : ℕ) (ds acc : List ℕ)
      → AreDigits b ds
      → 0 < m
      → digits b (value b m ds) acc ≡ digits b m (ds ++ acc)
  unfolding value
  digits-value_behind m [] acc hs k = refl
  digits-value_behind m (d ∷ ds) acc (h, hs) k =
      digits-value_behind (m * b + d) ds acc hs (grown m d k)
      ∙ digits_snoc m d (ds ++ acc) h (grown m d k)

  -- The digits of the number that digits spell are those digits.
  pub digits-value :
      (ds : List ℕ) → AreDigits b ds → StartsNonzero ds → digits b (value b 0 ds) [] ≡ ds
  unfolding value digits digits_loop
  digits-value [] hs k = refl
  digits-value (d ∷ ds) (h, hs) k =
      let alone : 0 * b + d ≡ d = omega arith in
      let first : digits b (0 * b + d) (ds ++ []) ≡ d ∷ ds ++ [] =
        digits_snoc 0 d (ds ++ []) h (omega arith) in
      rw alone (digits-value_behind d ds [] hs k ∙ (rw alone at first) ∙ append-nil (d ∷ ds))

  value-digits_loop :
      (f n : ℕ) (acc : List ℕ) → n ≤ f → value b 0 (digits_loop b f n acc) ≡ value b n acc
  unfolding digits_loop value
  value-digits_loop zero zero acc h = refl
  value-digits_loop zero (suc n) acc h = ground arith
  value-digits_loop (suc f) zero acc h = refl
  value-digits_loop (suc f) (suc n) acc h =
      let smaller : suc n / b < suc n = div-lt_self (omega arith) large in
      let again = value-digits_loop f (suc n / b) (suc n % b ∷ acc) (omega arith) in
      ground (arith, again, div-add-mod' (suc n) b)

  -- The number that the digits of `n` spell is `n`, whatever stands behind.
  pub value-digits : (n : ℕ) (acc : List ℕ) → value b 0 (digits b n acc) ≡ value b n acc
  unfolding digits
  value-digits n acc = value-digits_loop n n acc (omega arith)

  AreDigits-digits_loop :
      (f n : ℕ) (acc : List ℕ) → AreDigits b acc → AreDigits b (digits_loop b f n acc)
  unfolding digits_loop
  AreDigits-digits_loop zero n acc h = h
  AreDigits-digits_loop (suc f) zero acc h = h
  AreDigits-digits_loop (suc f) (suc n) acc h =
      let more : (suc n == 0) ≡ false = ground arith in
      rw more
        (AreDigits-digits_loop f (suc n / b) (suc n % b ∷ acc) (mod-lt (suc n) (omega arith), h))

  pub AreDigits-digits : (n : ℕ) → AreDigits b (digits b n [])
  unfolding digits
  AreDigits-digits n = AreDigits-digits_loop n n [] tt

  StartsNonzero-digits_loop :
      (f n : ℕ) (acc : List ℕ)
      → n ≤ f
      → (n ≡ 0 → StartsNonzero acc)
      → StartsNonzero (digits_loop b f n acc)
  unfolding digits_loop
  StartsNonzero-digits_loop zero zero acc h k = k refl
  StartsNonzero-digits_loop zero (suc n) acc h k = elim h [ ]
  StartsNonzero-digits_loop (suc f) zero acc h k = k refl
  StartsNonzero-digits_loop (suc f) (suc n) acc h k =
      let more : (suc n == 0) ≡ false = ground arith in
      let smaller : suc n / b < suc n = div-lt_self (omega arith) large in
      let split = div-add-mod' (suc n) b in
      rw more (
        StartsNonzero-digits_loop f (suc n / b) (suc n % b ∷ acc) (omega arith)
          (λ last. ground (arith, split, zero-mul b)))

  pub StartsNonzero-digits : (n : ℕ) → StartsNonzero (digits b n [])
  unfolding digits
  StartsNonzero-digits n = StartsNonzero-digits_loop n n [] (omega arith) (λ _. tt)
