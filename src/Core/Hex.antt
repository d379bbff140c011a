-- ===== src/Core/Hex.antt =====
-- wallet-sdk/src/core/utils.ts: `bytesToHex` and `hexToBytes`. Bytes are numbers below 256; a thrown
-- error is `none`. `parseInt(pair, 16)` is the one of JavaScript: blanks and a sign in front are read,
-- and it stops at the first other character; an `Uint8Array` keeps 0 for `NaN` and -d modulo 256.
use reth_monmouth.Common.{
  ℕ, ◌+◌, ◌-◌, ◌*◌, ◌/◌, ◌%◌, ◌<◌, ◌≡◌, refl, true, false, ◌&&◌, ◌||◌, Option, none, some, List, [],
  ◌∷◌, ◌++◌, map, arith, ltb, leb, ◌==◌, if◌then◌else◌, length, drop, or_else, All,
}
use reth_monmouth.Common.Text.{Text, codes, is_blank, starts_with}

abbrev pub IsByte : ℕ → Type 0
IsByte b = b < 256

-- `HEX_CHARS[d]`, for d < 16
unfoldable pub hex_char : ℕ → ℕ
hex_char d = if ltb d 10 then d + b'0' else d - 10 + b'a'

-- The two hexadecimal digits of each byte: `byte >> 4` and `byte & 0x0f`.
unfoldable pub nibbles : List ℕ → List ℕ
nibbles [] = []
nibbles (byte ∷ bytes) = byte / 16 ∷ byte % 16 ∷ nibbles bytes

unfoldable pub bytes_to_hex : List ℕ → Text
unfolding hex_char nibbles
bytes_to_hex bytes = codes "0x" ++ map hex_char (nibbles bytes)

-- A hexadecimal digit of either case.
unfoldable pub hex_digit : ℕ → Option ℕ
hex_digit c =
    if leb b'0' c && leb c b'9'
    then some (c - b'0')
    else if leb b'a' c && leb c b'f'
    then some (c - b'a' + 10)
    else if leb b'A' c && leb c b'F'
    then some (c - b'A' + 10)
    else none

-- The second character of a pair, when the first is a digit.
unfoldable pub byte_behind : ℕ → Option ℕ → ℕ
byte_behind high none = high
byte_behind high (some low) = high * 16 + low

-- `parseInt` of two characters, as a byte.
unfoldable pub byte_of_digits : Option ℕ → ℕ → ℕ → ℕ
unfolding byte_behind is_blank hex_digit
byte_of_digits (some high) c d = byte_behind high (hex_digit d)
byte_of_digits none c d =
    let low = or_else (hex_digit d) 0 in
    if c == b'-' then (256 - low) % 256 else if c == b'+' || is_blank c then low else 0

unfoldable pub byte_of_pair : ℕ → ℕ → ℕ
unfolding byte_of_digits
byte_of_pair c d = byte_of_digits (hex_digit c) c d

unfoldable pub bytes_of_pairs : Text → List ℕ
unfolding byte_of_pair
bytes_of_pairs [] = []
bytes_of_pairs (c ∷ []) = []
bytes_of_pairs (c ∷ d ∷ s) = byte_of_pair c d ∷ bytes_of_pairs s

-- `none` is the error of an odd length.
unfoldable pub hex_to_bytes : Text → Option (List ℕ)
unfolding bytes_of_pairs starts_with
hex_to_bytes hex =
    let normalized = if starts_with (codes "0x") hex then drop 2 hex else hex in
    if length normalized % 2 == 0 then some (bytes_of_pairs normalized) else none

pub hex_digit-hex_char : (d : ℕ) → d < 16 → hex_digit (hex_char d) ≡ some d
unfolding hex_digit hex_char
hex_digit-hex_char d h = ground arith

byte_of_pair-hex_char :
    (b : ℕ) → IsByte b → byte_of_pair (hex_char (b / 16)) (hex_char (b % 16)) ≡ b
unfolding byte_of_pair byte_of_digits byte_behind
byte_of_pair-hex_char b h =
    let high : b / 16 < 16 = omega arith in
    let low : b % 16 < 16 = omega arith in
    rw (hex_digit-hex_char (b / 16) high, hex_digit-hex_char (b % 16) low) (omega arith)

pub bytes_of_pairs-nibbles :
    (bytes : List ℕ) → All IsByte bytes → bytes_of_pairs (map hex_char (nibbles bytes)) ≡ bytes
unfolding bytes_of_pairs nibbles
bytes_of_pairs-nibbles [] h = refl
bytes_of_pairs-nibbles (b ∷ bytes) (h, hs) =
    rw (byte_of_pair-hex_char b h, bytes_of_pairs-nibbles bytes hs)

pub length-map-nibbles : (bytes : List ℕ) → length (map hex_char (nibbles bytes)) ≡ 2 * length bytes
unfolding nibbles
length-map-nibbles [] = refl
length-map-nibbles (b ∷ bytes) = omega (arith, length-map-nibbles bytes)

-- Bytes that are written in hexadecimal are read back.
pub hex_to_bytes-bytes_to_hex :
    (bytes : List ℕ) → All IsByte bytes → hex_to_bytes (bytes_to_hex bytes) ≡ some bytes
unfolding hex_to_bytes bytes_to_hex starts_with
hex_to_bytes-bytes_to_hex bytes h =
    ground (arith, length-map-nibbles bytes, bytes_of_pairs-nibbles bytes h)

hex_char-ne-x : (d : ℕ) → d < 16 → (b'x' == hex_char d) ≡ false
unfolding hex_char
hex_char-ne-x d h = ground arith

-- No two digits spell `0x`.
not_prefixed :
    (bytes : List ℕ)
    → All IsByte bytes
    → starts_with (codes "0x") (map hex_char (nibbles bytes)) ≡ false
unfolding starts_with nibbles
not_prefixed [] h = refl
not_prefixed (b ∷ bytes) (h, hs) =
    let low : b % 16 < 16 = omega arith in ground (arith, hex_char-ne-x (b % 16) low)

-- The digits are read without the `0x` too.
pub hex_to_bytes-nibbles :
    (bytes : List ℕ) → All IsByte bytes → hex_to_bytes (map hex_char (nibbles bytes)) ≡ some bytes
unfolding hex_to_bytes
hex_to_bytes-nibbles bytes h =
    let paired : (2 * length bytes % 2 == 0) ≡ true = ground arith in
    rw (not_prefixed bytes h, length-map-nibbles bytes, bytes_of_pairs-nibbles bytes h, paired)
