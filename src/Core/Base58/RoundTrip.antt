-- ===== src/Core/Base58/RoundTrip.antt =====
-- Bytes written in base58 and read back (wallet-sdk/src/core/utils.ts).
use reth_monmouth.Common.{
  ℕ, zero, suc, ◌+◌, ◌-◌, ◌*◌, ◌/◌, ◌%◌, ◌<◌, ◌≤◌, ◌≡◌, refl, sym, ap, ◌∙◌, inl, inr, true, false,
  some, List, [], ◌∷◌, ◌++◌, map, arith, ◌==◌, Bool-cases, length, All, Some, ltb, drop, repeat,
  ◌>>=◌,
}
use mathlib.Core.Path.{subst}
use reth_monmouth.Common.Text.{Text, pad_start}
use reth_monmouth.Common.Radix.{
  digits, value, AreDigits, StartsNonzero, digits-value, value-digits, AreDigits-digits,
  StartsNonzero-digits,
}
use reth_monmouth.Core.Hex.{
  hex_char, nibbles, IsByte, length-map-nibbles, bytes_to_hex, hex_to_bytes-nibbles,
}
use reth_monmouth.Core.Base58.{
  base58_char, read_base58, bigint_of_hex, hex_of, evened, count_leading, bytes_to_base58,
  base58_to_bytes,
}
use reth_monmouth.Core.Base58.Numbers.{
  base58_char-ne-one, read_base58-value, AreDigits-nibbles, value-nibbles, read_hex-bytes,
}

-- The base58 text of bytes whose number is `num`.
abbrev pub shown : ℕ → ℕ → Text
shown zeros num = repeat zeros b'1' ++ map base58_char (digits 58 num [])

count_leading-digits :
    (ds : List ℕ) → AreDigits 58 ds → StartsNonzero ds → count_leading b'1' (map base58_char ds) ≡ 0
unfolding count_leading
count_leading-digits [] h k = refl
count_leading-digits (d ∷ ds) (h, hs) k = rw (base58_char-ne-one d h k)

count_leading-repeat :
    (n c : ℕ) (s : List ℕ) → count_leading c s ≡ 0 → count_leading c (repeat n c ++ s) ≡ n
unfolding count_leading
count_leading-repeat zero c s h = h
count_leading-repeat (suc n) c s h = ground (arith, count_leading-repeat n c s h)

drop-repeat : (n c : ℕ) (s : List ℕ) → drop n (repeat n c ++ s) ≡ s
drop-repeat zero c s = refl
drop-repeat (suc n) c s = drop-repeat n c s

-- The text is read as the zeros and the number that it was written from.
pub read_shown :
    (zeros num : ℕ)
    → (count_leading b'1' (shown zeros num) ≡ zeros)
      × (read_base58 0 (drop zeros (shown zeros num)) ≡ some num)
unfolding value
read_shown zeros num =
    let ds = digits 58 num [] in
    let small = AreDigits-digits 58 (omega arith) num in
    let first = count_leading-digits ds small (StartsNonzero-digits 58 (omega arith) num) in
    (
      count_leading-repeat zeros b'1' (map base58_char ds) first,
      ap (read_base58 0) (drop-repeat zeros b'1' (map base58_char ds))
          ∙ read_base58-value 0 ds small
          ∙ ap some (value-digits 58 (omega arith) num []),
    )

evened-even : (s : Text) (k : ℕ) → length s ≡ 2 * k → 0 < k → evened s ≡ s
unfolding evened pad_start
evened-even s k h p =
    let padded : 2 - length s ≡ 0 = omega arith in
    let paired : (length s % 2 == 0) ≡ true = ground arith in rw padded (rw paired)

evened-odd : (s : Text) (k : ℕ) → length s ≡ 2 * k + 1 → evened s ≡ b'0' ∷ s
unfolding evened pad_start
evened-odd s zero h =
    let padded : 2 - length s ≡ 1 = omega arith in
    let paired : (suc (length s) % 2 == 0) ≡ true = ground arith in rw padded (rw paired)
evened-odd s (suc k) h =
    let padded : 2 - length s ≡ 0 = omega arith in
    let single : (length s % 2 == 0) ≡ false = ground arith in rw padded (rw single)

hex_of-digits :
    (num d : ℕ) (ds : List ℕ) → digits 16 num [] ≡ d ∷ ds → hex_of num ≡ map hex_char (d ∷ ds)
unfolding hex_of digits
hex_of-digits zero d ds h = ground arith
hex_of-digits (suc num) d ds h =
    let more : (suc num == 0) ≡ false = ground arith in rw more (ap (map hex_char) (rw more at h))

digits-large :
    (b : ℕ) (bytes : List ℕ)
    → All IsByte (b ∷ bytes)
    → 16 ≤ b
    → digits 16 (value 256 0 (b ∷ bytes)) [] ≡ b / 16 ∷ b % 16 ∷ nibbles bytes
unfolding nibbles hex_char
digits-large b bytes h k =
    ap (λ n. digits 16 n []) (sym (value-nibbles 0 (b ∷ bytes)))
    ∙ digits-value 16 (omega arith) (nibbles (b ∷ bytes)) (AreDigits-nibbles (b ∷ bytes) h)
        (omega arith)

digits-small :
    (b : ℕ) (bytes : List ℕ)
    → All IsByte bytes
    → b < 16
    → 0 < b
    → digits 16 (value 256 0 (b ∷ bytes)) [] ≡ b ∷ nibbles bytes
unfolding value
digits-small b bytes h small k =
    let same : 0 * 256 + b ≡ 0 * 16 + b = omega arith in
    ap (λ n. digits 16 (value 256 n bytes) []) same
    ∙ ap (λ n. digits 16 n []) (sym (value-nibbles (0 * 16 + b) bytes))
    ∙ digits-value 16 (omega arith) (b ∷ nibbles bytes) (small, AreDigits-nibbles bytes h) k

-- The number of bytes that start with no zero is written in hexadecimal as the bytes are.
evened-value :
    (b : ℕ) (bytes : List ℕ)
    → All IsByte (b ∷ bytes)
    → 0 < b
    → evened (hex_of (value 256 0 (b ∷ bytes))) ≡ map hex_char (nibbles (b ∷ bytes))
unfolding nibbles hex_char
evened-value b bytes (h, hs) k =
    let len = length-map-nibbles bytes in
    let num = value 256 0 (b ∷ bytes) in
    elim (Bool-cases (ltb b 16)) [
      | inl small ↦
          let less : b < 16 = ground arith in
          let high : b / 16 ≡ 0 = omega arith in
          let low : b % 16 ≡ b = omega arith in
          let text = hex_of-digits num b (nibbles bytes) (digits-small b bytes hs less k) in
          rw (text, high, low)
            (evened-odd (map hex_char (b ∷ nibbles bytes)) (length bytes) (omega (arith, len)))
      | inr large ↦
          let more : 16 ≤ b = ground arith in
          let spelt = digits-large b bytes (h, hs) more in
          rw (hex_of-digits num (b / 16) (b % 16 ∷ nibbles bytes) spelt) (
            evened-even (map hex_char (nibbles (b ∷ bytes))) (suc (length bytes))
              (omega (arith, len)) (omega arith))
    ]

-- Bytes are zeros in front of bytes that start with none.
pub split_zeros :
    (bytes : List ℕ)
    → Some (λ b. 0 < b) bytes
    → (c : ℕ) × (rest : List ℕ) × (0 < c) × (bytes ≡ repeat (count_leading 0 bytes) 0 ++ c ∷ rest)
unfolding count_leading
split_zeros [] h = absurd h
split_zeros (zero ∷ bytes) (inl h) = elim h [ ]
split_zeros (zero ∷ bytes) (inr h) =
    let (c, rest, positive, same) = split_zeros bytes h in (c, rest, positive, ap (λ s. 0 ∷ s) same)
split_zeros (suc b ∷ bytes) h =
    let head : (suc b == 0) ≡ false = ground arith in (suc b, bytes, omega arith, rw head refl)

pub value-zeros : (n : ℕ) (bytes : List ℕ) → value 256 0 (repeat n 0 ++ bytes) ≡ value 256 0 bytes
unfolding value
value-zeros zero bytes = refl
value-zeros (suc n) bytes = value-zeros n bytes

pub All-behind : (n : ℕ) (bytes : List ℕ) → All IsByte (repeat n 0 ++ bytes) → All IsByte bytes
All-behind zero bytes h = h
All-behind (suc n) bytes (h, hs) = All-behind n bytes hs

-- The text of bytes, of which there are some.
pub bytes_to_base58-shown :
    (b : ℕ) (bytes : List ℕ)
    → All IsByte (b ∷ bytes)
    → bytes_to_base58 (b ∷ bytes)
      ≡ some (shown (count_leading 0 (b ∷ bytes)) (value 256 0 (b ∷ bytes)))
unfolding bytes_to_base58 bytes_to_hex bigint_of_hex nibbles
bytes_to_base58-shown b bytes h = ground (arith, read_hex-bytes (b ∷ bytes) h)

base58_to_bytes-shown :
    (zeros c : ℕ) (rest : List ℕ)
    → All IsByte (c ∷ rest)
    → 0 < c
    → base58_to_bytes (shown zeros (value 256 0 (c ∷ rest))) ≡ some (repeat zeros 0 ++ c ∷ rest)
unfolding base58_to_bytes
base58_to_bytes-shown zeros c rest h k =
    let (counted, number) = read_shown zeros (value 256 0 (c ∷ rest)) in
    rw (counted, number, evened-value c rest h k, hex_to_bytes-nibbles (c ∷ rest) h)

-- Bytes of which one is not zero are written in base58, and reading that text gives them back.
pub base58_to_bytes-bytes_to_base58 :
    (bytes : List ℕ)
    → All IsByte bytes
    → Some (λ b. 0 < b) bytes
    → (bytes_to_base58 bytes >>= base58_to_bytes) ≡ some bytes
base58_to_bytes-bytes_to_base58 [] h k = absurd k
base58_to_bytes-bytes_to_base58 (b ∷ bytes) h k =
    let zeros = count_leading 0 (b ∷ bytes) in
    let (c, rest, positive, same) = split_zeros (b ∷ bytes) k in
    let number : value 256 0 (b ∷ bytes) ≡ value 256 0 (c ∷ rest) =
      ap (value 256 0) same ∙ value-zeros zeros (c ∷ rest) in
    let behind = All-behind zeros (c ∷ rest) (subst (All IsByte) same h) in
    ap (λ text. text >>= base58_to_bytes) (bytes_to_base58-shown b bytes h)
    ∙ ap (λ n. base58_to_bytes (shown zeros n)) number
    ∙ base58_to_bytes-shown zeros c rest behind positive
    ∙ ap some (sym same)
