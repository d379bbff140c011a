-- ===== src/Core/Amount.antt =====
-- wallet-sdk/src/core/utils.ts: token amounts as texts. `/` and `%` on `bigint`s round towards 0. A
-- `SyntaxError` of `BigInt` is `none`.
pub mod RoundTrip
use reth_monmouth.Common.{
  ℕ, suc, ◌+◌, ◌-◌, ◌*◌, ◌/◌, ◌%◌, ◌^◌, Bool, false, Option, none, some, ◌>>=◌, List, [], ◌∷◌, ◌++◌,
  ◌==◌, if◌then◌else◌, or_else, take, is_empty,
}
use reth_monmouth.Common.Int.{ℤ, pos, negsuc, ◌+ℤ◌}
use reth_monmouth.Common.Text.{Text, pad_start, pad_end}
use reth_monmouth.Common.Decimal.{text_of_bigint, bigint_of_text, negated}
use reth_monmouth.Core.Types.{ChainType, TokenId, TokenAddress, TokenAmount}

unfoldable pub create_native_token : ChainType → Text → ℕ → TokenId
create_native_token chain symbol decimals = record {
  chain_type = chain;
  address = TokenAddress.native;
  symbol = symbol;
  decimals = decimals;
}

-- `a / d` and `a % d`, for d > 0
abbrev pub quotient : ℤ → ℕ → ℤ
quotient (pos n) d = pos (n / d)
quotient (negsuc n) d = negated (suc n / d)

abbrev pub remainder : ℤ → ℕ → ℤ
remainder (pos n) d = pos (n % d)
remainder (negsuc n) d = negated (suc n % d)

abbrev pub is_zero : ℤ → Bool
is_zero (pos n) = n == 0
is_zero (negsuc n) = false

-- `n * m`, for m ≥ 0
abbrev pub times : ℤ → ℕ → ℤ
times (pos n) m = pos (n * m)
times (negsuc n) m = negated (suc n * m)

-- A character before what is left behind it: a zero goes if nothing is left.
unfoldable pub trim_before : ℕ → Text → Text
trim_before c [] = if c == b'0' then [] else c ∷ []
trim_before c (d ∷ rest) = c ∷ d ∷ rest

-- `s.replace(/0+$/, '')`
unfoldable pub trim_zeros : Text → Text
unfolding trim_before
trim_zeros [] = []
trim_zeros (c ∷ s) = trim_before c (trim_zeros s)

-- The digits of a fraction, and a minus sign before them if it is negative, in `decimals` places.
unfoldable pub fraction_digits : ℤ → ℕ → Text
unfolding trim_zeros pad_start
fraction_digits fraction decimals = trim_zeros (pad_start decimals b'0' (text_of_bigint fraction))

unfoldable pub format_token_amount : ℤ → ℕ → Text
unfolding fraction_digits
format_token_amount amount decimals =
    let whole = text_of_bigint (quotient amount (10 ^ decimals)) in
    let fraction = remainder amount (10 ^ decimals) in
    if is_zero fraction then whole else whole ++ b'.' ∷ fraction_digits fraction decimals

-- `amount.split('.')`: the first part, and the second if there is a point.
unfoldable pub before_point : Text → Text
before_point [] = []
before_point (c ∷ s) = let rest = before_point s in if c == b'.' then [] else c ∷ rest

unfoldable pub behind_point : Text → Text
unfolding before_point
behind_point [] = []
behind_point (c ∷ s) = let rest = behind_point s in if c == b'.' then before_point s else rest

unfoldable pub parse_token_amount : Text → ℕ → Option ℤ
unfolding before_point behind_point pad_end
parse_token_amount amount decimals = do
  whole ← bigint_of_text (before_point amount)
  fraction ← bigint_of_text (take decimals (pad_end decimals b'0' (behind_point amount)))
  some (times whole (10 ^ decimals) +ℤ fraction)

unfoldable pub create_token_amount : ℤ → TokenId → TokenAmount
unfolding format_token_amount
create_token_amount raw token = record {
  token = token;
  raw = raw;
  formatted = format_token_amount raw token.decimals;
}
