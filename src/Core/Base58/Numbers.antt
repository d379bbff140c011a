-- ===== src/Core/Base58/Numbers.antt =====
-- The numbers that hexadecimal and base58 texts of wallet-sdk/src/core/utils.ts spell.
use reth_monmouth.Common.{
  ℕ, zero, suc, ◌+◌, ◌*◌, ◌/◌, ◌%◌, ◌<◌, ◌≡◌, refl, ap, ◌∙◌, inl, inr, Bool, true, false, not, ◌&&◌,
  some, List, [], ◌∷◌, map, arith, ◌==◌, Bool-cases, or_else, length, any, All,
}
use reth_monmouth.Common.Text.{Text}
use reth_monmouth.Common.Radix.{value, AreDigits}
use reth_monmouth.Core.Hex.{hex_char, nibbles, IsByte, hex_digit-hex_char}
use reth_monmouth.Core.Base58.{
  base58_alphabet, base58_char, get_elem?, index_of, read_hex, read_base58,
}

-- No member occurs twice.
distinct : Text → Bool
distinct [] = true
distinct (c ∷ s) = not (any (λ d. d == c) s) && distinct s

any-get_elem? : (s : Text) (i c : ℕ) → get_elem? s i ≡ some c → any (λ d. d == c) s ≡ true
unfolding get_elem?
any-get_elem? [] i c h = ground arith
any-get_elem? (d ∷ s) zero c h = ground arith
any-get_elem? (d ∷ s) (suc i) c h = ground (arith, any-get_elem? s i c h)

-- In such a text a character is found where it stands.
index_of-get_elem? :
    (s : Text) (i c : ℕ) → distinct s ≡ true → get_elem? s i ≡ some c → index_of c s ≡ some i
unfolding distinct index_of get_elem?
index_of-get_elem? [] i c h k = ground arith
index_of-get_elem? (d ∷ s) zero c h k = ground arith
index_of-get_elem? (d ∷ s) (suc i) c h k =
    ground (arith, index_of-get_elem? s i c, any-get_elem? s i c k)

get_elem?-lt : (s : Text) (i : ℕ) → i < length s → get_elem? s i ≡ some (or_else (get_elem? s i) 0)
unfolding get_elem?
get_elem?-lt [] i h = ground arith
get_elem?-lt (c ∷ s) zero h = refl
get_elem?-lt (c ∷ s) (suc i) h = get_elem?-lt s i (omega arith)

pub index_of-base58_char : (i : ℕ) → i < 58 → index_of (base58_char i) base58_alphabet ≡ some i
unfolding base58_char distinct
index_of-base58_char i h =
    index_of-get_elem? base58_alphabet i (base58_char i) refl (get_elem?-lt base58_alphabet i h)

pub base58_char-ne-one : (i : ℕ) → i < 58 → 0 < i → (base58_char i == b'1') ≡ false
unfolding index_of
base58_char-ne-one i h k = elim (Bool-cases (base58_char i == b'1')) [
  | inl same ↦
      let first : index_of (base58_char i) base58_alphabet ≡ some 0 = ground arith in
      ground (arith, index_of-base58_char i h)
  | inr other ↦ other
]

-- What the digits of a base58 text spell.
pub read_base58-value :
    (n : ℕ) (ds : List ℕ)
    → AreDigits 58 ds
    → read_base58 n (map base58_char ds) ≡ some (value 58 n ds)
unfolding read_base58 value
read_base58-value n [] h = refl
read_base58-value n (d ∷ ds) (h, hs) =
    rw (index_of-base58_char d h) (read_base58-value (n * 58 + d) ds hs)

pub AreDigits-nibbles : (bytes : List ℕ) → All IsByte bytes → AreDigits 16 (nibbles bytes)
unfolding nibbles
AreDigits-nibbles [] h = tt
AreDigits-nibbles (b ∷ bytes) (h, hs) = (omega arith, (omega arith, AreDigits-nibbles bytes hs))

read_hex-value :
    (n : ℕ) (ds : List ℕ) → AreDigits 16 ds → read_hex n (map hex_char ds) ≡ some (value 16 n ds)
unfolding read_hex value
read_hex-value n [] h = refl
read_hex-value n (d ∷ ds) (h, hs) = rw (hex_digit-hex_char d h) (read_hex-value (n * 16 + d) ds hs)

-- Two hexadecimal digits for each byte spell the same number as the bytes.
pub value-nibbles : (n : ℕ) (bytes : List ℕ) → value 16 n (nibbles bytes) ≡ value 256 n bytes
unfolding value nibbles
value-nibbles n [] = refl
value-nibbles n (b ∷ bytes) =
    let same : (n * 16 + b / 16) * 16 + b % 16 ≡ n * 256 + b = omega arith in
    ap (λ m. value 16 m (nibbles bytes)) same ∙ value-nibbles (n * 256 + b) bytes

pub read_hex-bytes :
    (bytes : List ℕ)
    → All IsByte bytes
    → read_hex 0 (map hex_char (nibbles bytes)) ≡ some (value 256 0 bytes)
read_hex-bytes bytes h =
    read_hex-value 0 (nibbles bytes) (AreDigits-nibbles bytes h) ∙ ap some (value-nibbles 0 bytes)
