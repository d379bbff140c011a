-- ===== src/Common/Decimal.antt =====
-- `toString()` of a `bigint`, and `BigInt(text)` on what that prints and on the empty text. Other
-- spellings that JavaScript reads too (hexadecimal, blanks at the ends, a plus sign) are refused.
pub mod Digits
use reth_monmouth.Common.Tests.{leb, ◌==◌, if◌then◌else◌, Bool-cases}
use reth_monmouth.Common.Int.{ℤ, pos, negsuc}
use reth_monmouth.Common.Text.{Text}
use Prim.Native.Nat.{ℕ, zero, suc, ◌+◌, ◌-◌, ◌*◌, ◌/◌, ◌%◌, ◌<◌}
use mathlib.Core.Path.{◌≡◌, refl, ◌∙◌}
use mathlib.Core.Logic.{inl, inr, ◌≢◌}
use mathlib.Core.Bool.{Bool, true, ◌&&◌}
use mathlib.Core.Option
use mathlib.Core.Option.{Option, none, some}
use mathlib.Core.List.{[], ◌∷◌}
use native.Mathlib.Omega.{arith}

-- The decimal digits of `n` in front of a text. The fuel is the number itself and one more.
digits_onto : ℕ → ℕ → Text → Text
digits_onto zero n acc = acc
digits_onto (suc f) n acc =
    let shown = (n % 10 + b'0') ∷ acc in
    let rest = digits_onto f (n / 10) shown in if n / 10 == 0 then shown else rest

unfoldable pub text_of_ℕ : ℕ → Text
unfolding digits_onto
text_of_ℕ n = digits_onto (suc n) n []

abbrev pub is_digit : ℕ → Bool
is_digit c = leb b'0' c && leb c b'9'

-- The number that a text of digits continues.
unfoldable pub digits_value : ℕ → Text → Option ℕ
digits_value n [] = some n
digits_value n (c ∷ s) =
    let rest = digits_value (n * 10 + (c - b'0')) s in if is_digit c then rest else none

-- `n.toString()`
unfoldable pub text_of_bigint : ℤ → Text
unfolding text_of_ℕ
text_of_bigint (pos n) = text_of_ℕ n
text_of_bigint (negsuc n) = b'-' ∷ text_of_ℕ (suc n)

abbrev pub negated : ℕ → ℤ
negated zero = pos 0
negated (suc n) = negsuc n

-- `BigInt(text)`; `none` is a `SyntaxError`.
unfoldable pub bigint_of_text : Text → Option ℤ
unfolding digits_value
bigint_of_text [] = some (pos 0)
bigint_of_text (c ∷ []) = Option.map pos (digits_value 0 (c ∷ []))
bigint_of_text (c ∷ d ∷ s) =
    if c == b'-'
    then Option.map negated (digits_value 0 (d ∷ s))
    else Option.map pos (digits_value 0 (c ∷ d ∷ s))

digits_value-cons :
    (m n k : ℕ) (acc : Text)
    → m * 10 + n % 10 ≡ k
    → digits_value m ((n % 10 + b'0') ∷ acc) ≡ digits_value k acc
unfolding digits_value
digits_value-cons m n k acc h =
    let same : m * 10 + (n % 10 + b'0' - b'0') ≡ k = omega arith in
    let digit : is_digit (n % 10 + b'0') ≡ true = ground arith in rw (digit, same)

digits_value-digits_onto :
    (f n : ℕ) (acc : Text) → n < f → digits_value 0 (digits_onto f n acc) ≡ digits_value n acc
unfolding digits_onto
digits_value-digits_onto zero n acc h = elim h [ ]
digits_value-digits_onto (suc f) n acc h = elim (Bool-cases (n / 10 == 0)) [
  | inl last ↦ rw last (digits_value-cons 0 n n acc (ground arith))
  | inr more ↦ rw more (
      digits_value-digits_onto f (n / 10) ((n % 10 + b'0') ∷ acc) (ground arith)
      ∙ digits_value-cons (n / 10) n n acc (omega arith))
]

digits_onto-ne-nil : (f n c : ℕ) (acc : Text) → digits_onto f n (c ∷ acc) ≢ []
unfolding digits_onto
digits_onto-ne-nil zero n c acc = cc
digits_onto-ne-nil (suc f) n c acc =
    ground (arith, digits_onto-ne-nil f (n / 10) (n % 10 + b'0') (c ∷ acc))

pub text_of_ℕ-ne-nil : (n : ℕ) → text_of_ℕ n ≢ []
unfolding text_of_ℕ
text_of_ℕ-ne-nil n = ground (arith, digits_onto-ne-nil n (n / 10) (n % 10 + b'0') [])

pub digits_value-text_of_ℕ : (n : ℕ) → digits_value 0 (text_of_ℕ n) ≡ some n
unfolding text_of_ℕ digits_value
digits_value-text_of_ℕ n = digits_value-digits_onto (suc n) n [] (omega arith)

-- A text of digits is read as the number that they spell, with and without a minus sign.
pub bigint_of_digits :
    (t : Text) (n : ℕ)
    → t ≢ []
    → digits_value 0 t ≡ some n
    → (bigint_of_text t ≡ some (pos n)) × (bigint_of_text (b'-' ∷ t) ≡ some (negated n))
unfolding bigint_of_text
bigint_of_digits [] n h e = absurd (h refl)
bigint_of_digits (c ∷ []) n h e = ground arith
bigint_of_digits (c ∷ d ∷ s) n h e = ground arith

-- `BigInt(n.toString())` is `n`.
pub bigint_of_text-text_of_bigint : (n : ℤ) → bigint_of_text (text_of_bigint n) ≡ some n
unfolding text_of_bigint
bigint_of_text-text_of_bigint (pos n) =
    (bigint_of_digits (text_of_ℕ n) n (text_of_ℕ-ne-nil n) (digits_value-text_of_ℕ n)).0
bigint_of_text-text_of_bigint (negsuc n) =
    (bigint_of_digits (text_of_ℕ (suc n)) (suc n) (text_of_ℕ-ne-nil (suc n))
      (digits_value-text_of_ℕ (suc n))).1
