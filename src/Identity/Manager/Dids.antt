-- ===== src/Identity/Manager/Dids.antt =====
-- The identifiers of wallet-sdk/src/identity/AgentIdentity.ts name their addresses.
use reth_monmouth.Common.{
  ℕ, ◌≡◌, refl, sym, ap, ◌∙◌, Option, none, some, List, [], ◌∷◌, ◌++◌, arith, drop, inl, All, ◌==◌,
}
use reth_monmouth.Common.Text.{Text, lower, lower_code, is_blank, starts_with}
use reth_monmouth.Core.Hex.{
  IsByte, hex_digit, byte_of_pair, byte_of_digits, bytes_of_pairs, bytes_to_hex,
  bytes_of_pairs-nibbles,
}
use reth_monmouth.Identity.Base58.{encode_base58}
use reth_monmouth.Identity.Base58.Agreed.{decode_base58-encode_base58}
use reth_monmouth.Identity.Manager.{
  did_start, generate_did, address_behind, extract_encoded, extract_address_from_did,
}

hex_digit-lower_code : (c : ℕ) → hex_digit (lower_code c) ≡ hex_digit c
unfolding hex_digit lower_code
hex_digit-lower_code c = ground arith

-- A capital is no blank and no sign, and neither is its small letter.
no_sign : (c : ℕ) → ((lower_code c == b'-') ≡ (c == b'-')) × ((lower_code c == b'+') ≡ (c == b'+'))
unfolding lower_code
no_sign c = (ground arith, ground arith)

is_blank-lower_code : (c : ℕ) → is_blank (lower_code c) ≡ is_blank c
unfolding is_blank lower_code
is_blank-lower_code c = ground arith

byte_of_digits-lower_code :
    (found : Option ℕ) (c d : ℕ)
    → byte_of_digits found (lower_code c) (lower_code d) ≡ byte_of_digits found c d
unfolding byte_of_digits
byte_of_digits-lower_code (some high) c d = rw (hex_digit-lower_code d) refl
byte_of_digits-lower_code none c d =
    rw (hex_digit-lower_code d, (no_sign c).0, (no_sign c).1, is_blank-lower_code c) refl

byte_of_pair-lower_code : (c d : ℕ) → byte_of_pair (lower_code c) (lower_code d) ≡ byte_of_pair c d
unfolding byte_of_pair
byte_of_pair-lower_code c d =
    rw (hex_digit-lower_code c) (byte_of_digits-lower_code (hex_digit c) c d)

bytes_of_pairs-lower : (s : Text) → bytes_of_pairs (lower s) ≡ bytes_of_pairs s
unfolding bytes_of_pairs lower
bytes_of_pairs-lower [] = refl
bytes_of_pairs-lower (c ∷ []) = refl
bytes_of_pairs-lower (c ∷ d ∷ s) = rw (byte_of_pair-lower_code c d, bytes_of_pairs-lower s) refl

drop-lower : (s : Text) → drop 2 (lower s) ≡ lower (drop 2 s)
unfolding lower
drop-lower [] = refl
drop-lower (c ∷ []) = refl
drop-lower (c ∷ d ∷ s) = refl

drop-bytes_to_hex :
    (raw : List ℕ) → All IsByte raw → bytes_of_pairs (drop 2 (bytes_to_hex raw)) ≡ raw
unfolding bytes_to_hex
drop-bytes_to_hex raw h = bytes_of_pairs-nibbles raw h

-- The bytes of an address that is written in any mix of cases.
bytes_of_address :
    (owner : Text) (raw : List ℕ)
    → All IsByte raw
    → lower owner ≡ bytes_to_hex raw
    → bytes_of_pairs (drop 2 owner) ≡ raw
bytes_of_address owner raw h same =
    sym (bytes_of_pairs-lower (drop 2 owner))
    ∙ ap bytes_of_pairs (sym (drop-lower owner) ∙ ap (drop 2) same)
    ∙ drop-bytes_to_hex raw h

extract_encoded-encode_base58 :
    (raw : List ℕ)
    → All IsByte raw
    → extract_encoded (encode_base58 (0xe7 ∷ 0x01 ∷ raw)) ≡ some (bytes_to_hex raw)
unfolding extract_encoded address_behind
extract_encoded-encode_base58 raw h =
    let back =
      decode_base58-encode_base58 (0xe7 ∷ 0x01 ∷ raw) (omega arith, (omega arith, h))
        (inl (omega arith)) in
    rw back refl

extract-start :
    (encoded : Text) → extract_address_from_did (did_start ++ encoded) ≡ extract_encoded encoded
unfolding extract_address_from_did starts_with
extract-start encoded = refl

-- The identifier of an address gives the address back in lower case, however it was written.
pub extract_address_from_did-generate_did :
    (owner : Text) (raw : List ℕ)
    → All IsByte raw
    → lower owner ≡ bytes_to_hex raw
    → extract_address_from_did (generate_did owner) ≡ some (lower owner)
unfolding generate_did
extract_address_from_did-generate_did owner raw h same =
    ap (λ bytes. extract_address_from_did (did_start ++ encode_base58 (0xe7 ∷ 0x01 ∷ bytes)))
      (bytes_of_address owner raw h same)
    ∙ extract-start (encode_base58 (0xe7 ∷ 0x01 ∷ raw))
    ∙ extract_encoded-encode_base58 raw h
    ∙ ap some (sym same)
