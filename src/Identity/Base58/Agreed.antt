-- ===== src/Identity/Base58/Agreed.antt =====
-- The carrying base58 of wallet-sdk/src/identity/AgentIdentity.ts against the one on `bigint`s of the
-- multi-chain wallet and of wallet-sdk/src/core/utils.ts.
use reth_monmouth.Common.{
  ℕ, zero, suc, ◌+◌, ◌*◌, ◌<◌, ◌≤◌, ◌≡◌, refl, sym, ap, ◌∙◌, some, List, [], ◌∷◌, ◌++◌, map, arith,
  repeat, inl, inr, All, Some,
}
use mathlib.Core.Path.{subst}
use reth_monmouth.Common.Text.{Text}
use reth_monmouth.Common.Radix.{
  value, digits, AreDigits, digits-value, value-digits, AreDigits-digits,
}
use reth_monmouth.Core.Hex.{IsByte}
use reth_monmouth.Core.Base58.{base58_char, index_of, count_leading}
use reth_monmouth.Core.Base58.Numbers.{index_of-base58_char}
use reth_monmouth.Core.Base58.RoundTrip.{shown, read_shown, split_zeros, value-zeros, All-behind}
use reth_monmouth.AgentWallet.Did.{base58_encode, add_ones_lem}
use reth_monmouth.Identity.Base58.{
  convert, reversed_onto, encode_base58, char_values, decode_base58,
}
use reth_monmouth.Identity.Base58.Carried.{convert-digits}

to_base58 :
    (bytes : List ℕ)
    → 0 < value 256 0 bytes
    → reversed_onto (convert 58 256 bytes (0 ∷ [])) [] ≡ digits 58 (value 256 0 bytes) []
to_base58 bytes =
    convert-digits 58 256 (omega arith) (λ carry d v. omega arith) (λ n. omega arith) (omega arith)
      bytes (λ m d. omega arith)

to_bytes :
    (chars : List ℕ)
    → 0 < value 58 0 chars
    → reversed_onto (convert 256 58 chars (0 ∷ [])) [] ≡ digits 256 (value 58 0 chars) []
to_bytes chars =
    convert-digits 256 58 (omega arith) (λ carry d v. omega arith) (λ n. omega arith) (omega arith)
      chars (λ m d. omega arith)

le-value : (n : ℕ) (bytes : List ℕ) → n ≤ value 256 n bytes
unfolding value
le-value n [] = omega arith
le-value n (b ∷ bytes) = omega (arith, le-value (n * 256 + b) bytes)

value-pos : (bytes : List ℕ) → Some (λ b. 0 < b) bytes → 0 < value 256 0 bytes
unfolding value
value-pos [] h = absurd h
value-pos (b ∷ bytes) (inl h) = omega (arith, le-value (0 * 256 + b) bytes)
value-pos (zero ∷ bytes) (inr h) = value-pos bytes h
value-pos (suc b ∷ bytes) (inr h) = omega (arith, le-value (0 * 256 + suc b) bytes)

encode_base58-shown :
    (bytes : List ℕ)
    → Some (λ b. 0 < b) bytes
    → encode_base58 bytes ≡ shown (count_leading 0 bytes) (value 256 0 bytes)
unfolding encode_base58
encode_base58-shown bytes h =
    ap (λ ds. repeat (count_leading 0 bytes) b'1' ++ map base58_char ds)
      (to_base58 bytes (value-pos bytes h))

-- For bytes of which one is not zero, carrying digits gives the same text as dividing a `bigint`.
pub encode_base58-base58_encode :
    (bytes : List ℕ) → Some (λ b. 0 < b) bytes → encode_base58 bytes ≡ base58_encode bytes
unfolding base58_encode
encode_base58-base58_encode bytes h =
    encode_base58-shown bytes h
    ∙ sym (add_ones_lem bytes (map base58_char (digits 58 (value 256 0 bytes) [])))

char_values-digits : (ds : List ℕ) → AreDigits 58 ds → char_values (map base58_char ds) ≡ some ds
unfolding char_values
char_values-digits [] h = refl
char_values-digits (d ∷ ds) (h, hs) = rw (index_of-base58_char d h, char_values-digits ds hs) refl

char_values-ones :
    (n : ℕ) (s : Text) (vs : List ℕ)
    → char_values s ≡ some vs
    → char_values (repeat n b'1' ++ s) ≡ some (repeat n 0 ++ vs)
unfolding char_values index_of
char_values-ones zero s vs h = h
char_values-ones (suc n) s vs h = rw (char_values-ones n s vs h) refl

value_ones : (n : ℕ) (vs : List ℕ) → value 58 0 (repeat n 0 ++ vs) ≡ value 58 0 vs
unfolding value
value_ones zero vs = refl
value_ones (suc n) vs = value_ones n vs

value_digits : (num : ℕ) → value 58 0 (digits 58 num []) ≡ num
unfolding value
value_digits num = value-digits 58 (omega arith) num []

-- The text that shows a number is read as zeros and the number's bytes.
decode_base58-shown :
    (zeros num : ℕ)
    → 0 < num
    → decode_base58 (shown zeros num) ≡ some (repeat zeros 0 ++ digits 256 num [])
unfolding decode_base58
decode_base58-shown zeros num h =
    let ds = digits 58 num [] in
    let chars =
      char_values-ones zeros (map base58_char ds) ds
        (char_values-digits ds (AreDigits-digits 58 (omega arith) num)) in
    let number = value_ones zeros ds ∙ value_digits num in
    let bytes = to_bytes (repeat zeros 0 ++ ds) (subst (λ n. 0 < n) (sym number) h) in
    rw (chars, (read_shown zeros num).0)
      (ap (λ bs. some (repeat zeros 0 ++ bs)) (bytes ∙ ap (λ n. digits 256 n []) number))

-- Bytes of which one is not zero are read back from the text that carrying gives.
pub decode_base58-encode_base58 :
    (bytes : List ℕ)
    → All IsByte bytes
    → Some (λ b. 0 < b) bytes
    → decode_base58 (encode_base58 bytes) ≡ some bytes
decode_base58-encode_base58 bytes h k =
    let zeros = count_leading 0 bytes in
    let (c, rest, positive, same) = split_zeros bytes k in
    let number = ap (value 256 0) same ∙ value-zeros zeros (c ∷ rest) in
    let behind = All-behind zeros (c ∷ rest) (subst (All IsByte) same h) in
    let back = digits-value 256 (omega arith) (c ∷ rest) behind positive in
    ap decode_base58 (encode_base58-shown bytes k)
    ∙ decode_base58-shown zeros (value 256 0 bytes) (value-pos bytes k)
    ∙ ap (λ bs. some (repeat zeros 0 ++ bs)) (ap (λ n. digits 256 n []) number ∙ back)
    ∙ ap some (sym same)
