-- ===== src/Core/Base58.antt =====
-- wallet-sdk/src/core/utils.ts: `bytesToBase58` and `base58ToBytes`, whose loops on `bigint`s are
-- `Common.Radix`. A thrown error is `none`.
pub mod Numbers
pub mod RoundTrip
use reth_monmouth.Common.{
  ℕ, zero, suc, ◌+◌, ◌*◌, ◌%◌, Bool, ◌&&◌, Option, none, some, ◌>>=◌, List, [], ◌∷◌, ◌++◌, map,
  ◌==◌, if◌then◌else◌, or_else, length, drop, repeat,
}
use mathlib.Core.Option
use reth_monmouth.Common.Text.{Text, codes, pad_start}
use reth_monmouth.Common.Radix.{digits}
use reth_monmouth.Core.Hex.{hex_char, hex_digit, bytes_to_hex, hex_to_bytes}

abbrev pub base58_alphabet : Text
base58_alphabet = codes "123456789ABCDEFGHJKLMNPQRSTUVWXYZabcdefghijkmnopqrstuvwxyz"

-- `s[i]`
unfoldable pub get_elem? : Text → ℕ → Option ℕ
get_elem? [] i = none
get_elem? (c ∷ s) zero = some c
get_elem? (c ∷ s) (suc i) = get_elem? s i

-- `s.indexOf(c)`, where `none` is -1
unfoldable pub index_of : ℕ → Text → Option ℕ
index_of c [] = none
index_of c (d ∷ s) =
    let rest = Option.map (λ i. suc i) (index_of c s) in if c == d then some 0 else rest

-- How many members in front are `c`.
unfoldable pub count_leading : ℕ → List ℕ → ℕ
count_leading c [] = 0
count_leading c (d ∷ s) = let rest = count_leading c s in if d == c then suc rest else 0

-- `BigInt('0x' + digits)` from the digits on, which refuses an empty text at the start only.
unfoldable pub read_hex : ℕ → Text → Option ℕ
unfolding hex_digit
read_hex n [] = some n
read_hex n (c ∷ s) = do d ← hex_digit c; read_hex (n * 16 + d) s

-- `BigInt('0x' + digits || '0')`: the text in front of `||` is never empty, so that `0x` alone is an
-- error.
unfoldable pub bigint_of_hex : Text → Option ℕ
unfolding read_hex
bigint_of_hex [] = none
bigint_of_hex (c ∷ s) = read_hex 0 (c ∷ s)

-- `BASE58_ALPHABET[i]`, for i < 58
unfoldable pub base58_char : ℕ → ℕ
unfolding get_elem?
base58_char i = or_else (get_elem? base58_alphabet i) 0

unfoldable pub bytes_to_base58 : List ℕ → Option Text
unfolding bigint_of_hex digits base58_char count_leading bytes_to_hex
bytes_to_base58 bytes = do
  num ← bigint_of_hex (drop 2 (bytes_to_hex bytes))
  some (repeat (count_leading 0 bytes) b'1' ++ map base58_char (digits 58 num []))

unfoldable pub read_base58 : ℕ → Text → Option ℕ
unfolding index_of
read_base58 num [] = some num
read_base58 num (c ∷ s) = do index ← index_of c base58_alphabet; read_base58 (num * 58 + index) s

-- `num.toString(16)`
unfoldable pub hex_of : ℕ → Text
unfolding digits hex_char
hex_of num = if num == 0 then b'0' ∷ [] else map hex_char (digits 16 num [])

-- Two digits at least, and an even number of them.
unfoldable pub evened : Text → Text
unfolding pad_start
evened digits = let hex = pad_start 2 b'0' digits in if length hex % 2 == 0 then hex else b'0' ∷ hex

unfoldable pub base58_to_bytes : Text → Option (List ℕ)
unfolding read_base58 evened hex_of count_leading hex_to_bytes
base58_to_bytes str =
    let zeros = count_leading b'1' str in
    do
      num ← read_base58 0 (drop zeros str)
      bytes ← hex_to_bytes (evened (hex_of num))
      some (repeat zeros 0 ++ bytes)
