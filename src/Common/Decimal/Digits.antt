-- ===== src/Common/Decimal/Digits.antt =====
-- The characters of a printed number, and how many they are.
use Prim.Native.Nat.{ℕ, zero, suc, ◌+◌, ◌/◌, ◌%◌, ◌^◌, ◌<◌, ◌≤◌}
use mathlib.Core.Path.{◌≡◌, refl}
use mathlib.Core.Logic.{inl, inr}
use mathlib.Core.Bool.{true}
use mathlib.Core.List.{[], ◌∷◌, ◌++◌}
use native.Mathlib.Nat.{pow-suc}
use native.Mathlib.Omega.{arith}
use reth_monmouth.Common.Tests.{◌==◌, Bool-cases}
use reth_monmouth.Common.Lists.{length, All, repeat}
use reth_monmouth.Common.Text.{Text}
use reth_monmouth.Common.Decimal.{digits_onto, digits_value, is_digit, text_of_ℕ}

digits_onto-digits :
    (f n : ℕ) (acc : Text)
    → All (λ c. is_digit c ≡ true) acc
    → All (λ c. is_digit c ≡ true) (digits_onto f n acc)
unfolding digits_onto
digits_onto-digits zero n acc h = h
digits_onto-digits (suc f) n acc h =
    let digit : is_digit (n % 10 + b'0') ≡ true = ground arith in
    elim (Bool-cases (n / 10 == 0)) [
      | inl last ↦ rw last (digit, h)
      | inr more ↦ rw more (digits_onto-digits f (n / 10) ((n % 10 + b'0') ∷ acc) (digit, h))
    ]

pub text_of_ℕ-digits : (n : ℕ) → All (λ c. is_digit c ≡ true) (text_of_ℕ n)
unfolding text_of_ℕ
text_of_ℕ-digits n = digits_onto-digits (suc n) n [] tt

length-digits_onto :
    (f n d : ℕ) (acc : Text) → n < 10 ^ suc d → length (digits_onto f n acc) ≤ suc d + length acc
unfolding digits_onto
length-digits_onto zero n d acc h = omega arith
length-digits_onto (suc f) n zero acc h =
    let last : (n / 10 == 0) ≡ true = ground (arith, pow-suc 10 0) in rw last (omega arith)
length-digits_onto (suc f) n (suc d) acc h = elim (Bool-cases (n / 10 == 0)) [
  | inl last ↦ rw last (omega arith)
  | inr more ↦
      let below : n / 10 < 10 ^ suc d = omega (arith, pow-suc 10 (suc d)) in
      let again = length-digits_onto f (n / 10) d ((n % 10 + b'0') ∷ acc) below in
      rw more (omega (arith, again))
]

-- A number below 10 ^ (d + 1) has no more than d + 1 digits.
pub length-text_of_ℕ : (n d : ℕ) → n < 10 ^ suc d → length (text_of_ℕ n) ≤ suc d
unfolding text_of_ℕ
length-text_of_ℕ n d h = omega (arith, length-digits_onto (suc n) n d [] h)

-- Zeros in front change nothing.
pub digits_value-zeros : (k : ℕ) (s : Text) → digits_value 0 (repeat k b'0' ++ s) ≡ digits_value 0 s
unfolding digits_value
digits_value-zeros zero s = refl
digits_value-zeros (suc k) s = digits_value-zeros k s
