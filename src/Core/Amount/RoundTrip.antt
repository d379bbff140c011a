-- ===== src/Core/Amount/RoundTrip.antt =====
-- Token amounts printed and read back (wallet-sdk/src/core/utils.ts).
use reth_monmouth.Common.{
  ℕ, zero, suc, ◌-◌, ◌/◌, ◌%◌, ◌^◌, ◌<◌, ◌≤◌, ◌≡◌, ◌≢◌, refl, sym, ap, ◌∙◌, ◌⊎◌, true, false, some,
  [], ◌∷◌, ◌++◌, arith, ◌==◌, Bool-cases, inl, inr, length, take, repeat, All, length-append,
  length-repeat,
}
use native.Mathlib.Nat.{div-add-mod', mod-lt, mod-one, one-le-pow}
use mathlib.Core.List.{append-nil, cons-ne-nil}
use reth_monmouth.Common.Int.{ℤ, pos, ◌+ℤ◌}
use reth_monmouth.Common.Text.{Text, pad_start, pad_end}
use reth_monmouth.Common.Decimal.{
  is_digit, digits_value, text_of_ℕ, text_of_bigint, bigint_of_text, bigint_of_digits,
  digits_value-text_of_ℕ, text_of_ℕ-ne-nil,
}
use reth_monmouth.Common.Decimal.Digits.{text_of_ℕ-digits, length-text_of_ℕ, digits_value-zeros}
use reth_monmouth.Core.Amount.{
  trim_before, trim_zeros, fraction_digits, format_token_amount, before_point, behind_point,
  parse_token_amount, times,
}

abbrev AreDecimal : Text → Type 0
AreDecimal = All (λ c. is_digit c ≡ true)

before_point-decimal : (s : Text) → AreDecimal s → before_point s ≡ s
unfolding before_point
before_point-decimal [] h = refl
before_point-decimal (c ∷ s) (h, hs) = ground (arith, before_point-decimal s hs)

behind_point-decimal : (s : Text) → AreDecimal s → behind_point s ≡ []
unfolding behind_point
behind_point-decimal [] h = refl
behind_point-decimal (c ∷ s) (h, hs) = ground (arith, behind_point-decimal s hs)

before_point-joined : (s t : Text) → AreDecimal s → before_point (s ++ b'.' ∷ t) ≡ s
unfolding before_point
before_point-joined [] t h = refl
before_point-joined (c ∷ s) t (h, hs) = ground (arith, before_point-joined s t hs)

behind_point-joined : (s t : Text) → AreDecimal s → AreDecimal t → behind_point (s ++ b'.' ∷ t) ≡ t
unfolding behind_point
behind_point-joined [] t h k = before_point-decimal t k
behind_point-joined (c ∷ s) t (h, hs) k = ground (arith, behind_point-joined s t hs k)

AreDecimal-zeros : (n : ℕ) (s : Text) → AreDecimal s → AreDecimal (repeat n b'0' ++ s)
AreDecimal-zeros zero s h = h
AreDecimal-zeros (suc n) s h = (refl, AreDecimal-zeros n s h)

trim_before-cases :
    (c : ℕ) (rest : Text)
    → ((c ≡ b'0') × (rest ≡ []) × (trim_before c rest ≡ [])) ⊎ (trim_before c rest ≡ c ∷ rest)
unfolding trim_before
trim_before-cases c (d ∷ rest) = inr refl
trim_before-cases c [] = elim (Bool-cases (c == b'0')) [
  | inl zero_digit ↦ inl (ground arith, refl, rw zero_digit refl)
  | inr other ↦ inr (rw other refl)
]

AreDecimal-trim_zeros : (s : Text) → AreDecimal s → AreDecimal (trim_zeros s)
unfolding trim_zeros
AreDecimal-trim_zeros [] h = tt
AreDecimal-trim_zeros (c ∷ s) (h, hs) = elim (trim_before-cases c (trim_zeros s)) [
  | inl (is_zero_digit, none_left, gone) ↦ rw gone tt
  | inr kept ↦ rw kept (h, AreDecimal-trim_zeros s hs)
]

take-whole : (n : ℕ) (s : Text) → length s ≡ n → take n s ≡ s
take-whole zero [] h = refl
take-whole zero (c ∷ s) h = ground arith
take-whole (suc n) [] h = refl
take-whole (suc n) (c ∷ s) h = ground (arith, take-whole n s)

-- Zeros that are taken from the end come back by padding.
pad_end-trim_zeros : (s : Text) → pad_end (length s) b'0' (trim_zeros s) ≡ s
unfolding pad_end trim_zeros
pad_end-trim_zeros [] = refl
pad_end-trim_zeros (c ∷ s) = elim (trim_before-cases c (trim_zeros s)) [
  | inl (is_zero_digit, none_left, gone) ↦
      let again : pad_end (length s) b'0' [] ≡ s = rw none_left at (pad_end-trim_zeros s) in
      let more : suc (length s) - 0 ≡ suc (length s) = omega arith in
      let all : length s - 0 ≡ length s = omega arith in
      rw (gone, is_zero_digit) (rw more (ap (λ t. b'0' ∷ t) (rw all at again)))
  | inr kept ↦
      let rest = trim_zeros s in
      let fewer : suc (length s) - suc (length rest) ≡ length s - length rest = omega arith in
      rw kept (rw fewer (ap (λ t. c ∷ t) (pad_end-trim_zeros s)))
]

length-pad_start : (n c : ℕ) (s : Text) → length s ≤ n → length (pad_start n c s) ≡ n
unfolding pad_start
length-pad_start n c s h =
    omega (arith, length-append (repeat (n - length s) c) s, length-repeat (n - length s) c)

-- The digits of a number below 10 ^ (d + 1), as a fraction, and read back after padding.
fraction_digits-decimal : (n d : ℕ) → AreDecimal (fraction_digits (pos n) d)
unfolding fraction_digits pad_start text_of_bigint
fraction_digits-decimal n d =
    let s = text_of_ℕ n in
    AreDecimal-trim_zeros (pad_start d b'0' s)
      (AreDecimal-zeros (d - length s) s (text_of_ℕ-digits n))

behind-ne-nil : (k c : ℕ) (s : Text) → s ≢ [] → repeat k c ++ s ≢ []
behind-ne-nil zero c s h = h
behind-ne-nil (suc k) c s h = cons-ne-nil c (repeat k c ++ s)

bigint_of_padded : (k n : ℕ) → bigint_of_text (repeat k b'0' ++ text_of_ℕ n) ≡ some (pos n)
bigint_of_padded k n =
    (bigint_of_digits (repeat k b'0' ++ text_of_ℕ n) n
      (behind-ne-nil k b'0' (text_of_ℕ n) (text_of_ℕ-ne-nil n))
      (digits_value-zeros k (text_of_ℕ n) ∙ digits_value-text_of_ℕ n)).0

abbrev padded : ℕ → ℕ → Text
padded n d = pad_start d b'0' (text_of_bigint (pos n))

bigint_of_text-padded : (n d : ℕ) → bigint_of_text (padded n d) ≡ some (pos n)
unfolding pad_start text_of_bigint
bigint_of_text-padded n d = bigint_of_padded (d - length (text_of_ℕ n)) n

length-padded : (n d : ℕ) → n < 10 ^ suc d → length (padded n (suc d)) ≡ suc d
unfolding text_of_bigint
length-padded n d h = length-pad_start (suc d) b'0' (text_of_ℕ n) (length-text_of_ℕ n d h)

fraction_read :
    (n d : ℕ)
    → n < 10 ^ suc d
    → bigint_of_text (take (suc d) (pad_end (suc d) b'0' (trim_zeros (padded n (suc d)))))
      ≡ some (pos n)
fraction_read n d h =
    let s = padded n (suc d) in
    let size = length-padded n d h in
    let filled : pad_end (suc d) b'0' (trim_zeros s) ≡ s =
      ap (λ m. pad_end m b'0' (trim_zeros s)) (sym size) ∙ pad_end-trim_zeros s in
    rw (filled, take-whole (suc d) s size) (bigint_of_text-padded n (suc d))

empty_read : bigint_of_text [] ≡ some (pos 0)
unfolding bigint_of_text
empty_read = refl

no_digits : digits_value 0 [] ≡ some 0
unfolding digits_value
no_digits = refl

zeros_read : (d : ℕ) → bigint_of_text (take d (pad_end d b'0' [])) ≡ some (pos 0)
unfolding pad_end
zeros_read zero = empty_read
zeros_read (suc d) =
    let zeros : Text = repeat (suc d) b'0' in
    let all : suc d - 0 ≡ suc d = omega arith in
    let value = rw append-nil at (digits_value-zeros (suc d) []) in
    ap (λ m. bigint_of_text (take (suc d) (repeat m b'0'))) all
    ∙ ap bigint_of_text (take-whole (suc d) zeros (length-repeat (suc d) b'0'))
    ∙ (bigint_of_digits zeros 0 (cons-ne-nil b'0' (repeat d b'0')) (value ∙ no_digits)).0

-- What is read from the two parts of a text.
parse_parts :
    (text : Text) (decimals : ℕ) (whole fraction : ℤ)
    → bigint_of_text (before_point text) ≡ some whole
    → bigint_of_text (take decimals (pad_end decimals b'0' (behind_point text))) ≡ some fraction
    → parse_token_amount text decimals ≡ some (times whole (10 ^ decimals) +ℤ fraction)
unfolding parse_token_amount
parse_parts text decimals whole fraction h k = rw h (rw k refl)

sum_parts : (n d : ℕ) → times (pos (n / d)) d +ℤ pos (n % d) ≡ pos n
unfolding ◌+ℤ◌
sum_parts n d = ground (arith, div-add-mod' n d)

whole_read : (n : ℕ) → bigint_of_text (text_of_ℕ n) ≡ some (pos n)
whole_read n = bigint_of_padded 0 n

read_whole : (n d : ℕ) → parse_token_amount (text_of_ℕ n) d ≡ some (times (pos n) (10 ^ d) +ℤ pos 0)
read_whole n d =
    let digits = text_of_ℕ-digits n in
    parse_parts (text_of_ℕ n) d (pos n) (pos 0)
      (rw (before_point-decimal (text_of_ℕ n) digits) (whole_read n))
      (rw (behind_point-decimal (text_of_ℕ n) digits) (zeros_read d))

read_both :
    (n f d : ℕ)
    → f < 10 ^ suc d
    → parse_token_amount (text_of_ℕ n ++ b'.' ∷ fraction_digits (pos f) (suc d)) (suc d)
      ≡ some (times (pos n) (10 ^ suc d) +ℤ pos f)
unfolding fraction_digits
read_both n f d h =
    let digits = text_of_ℕ-digits n in
    let t = fraction_digits (pos f) (suc d) in
    parse_parts (text_of_ℕ n ++ b'.' ∷ t) (suc d) (pos n) (pos f)
      (rw (before_point-joined (text_of_ℕ n) t digits) (whole_read n))
      (rw (behind_point-joined (text_of_ℕ n) t digits (fraction_digits-decimal f (suc d)))
        (fraction_read f d h))

no_fraction : (n : ℕ) → ¬ ((n % 10 ^ 0 == 0) ≡ false)
no_fraction n h = ground (arith, mod-one n)

-- The text of an amount that is not negative is read as that amount, with the same decimals.
pub parse_token_amount-format_token_amount :
    (n decimals : ℕ)
    → parse_token_amount (format_token_amount (pos n) decimals) decimals ≡ some (pos n)
unfolding format_token_amount text_of_bigint
parse_token_amount-format_token_amount n d = elim (Bool-cases (n % 10 ^ d == 0)) [
  | inl whole ↦
      let none_left : n % 10 ^ d ≡ 0 = ground arith in
      rw whole (read_whole (n / 10 ^ d) d ∙ rw none_left at (ap some (sum_parts n (10 ^ d))))
  | inr parts ↦ rw parts (with_fraction d parts)
]
  where
    with_fraction :
        (d : ℕ)
        → (n % 10 ^ d == 0) ≡ false
        → parse_token_amount
            (text_of_ℕ (n / 10 ^ d) ++ b'.' ∷ fraction_digits (pos (n % 10 ^ d)) d)
            d
          ≡ some (pos n)
    with_fraction zero h = absurd (no_fraction n h)
    with_fraction (suc d) h =
        read_both (n / 10 ^ suc d) (n % 10 ^ suc d) d
          (mod-lt n (one-le-pow (suc d) 10 (omega arith)))
        ∙ ap some (sum_parts n (10 ^ suc d))
