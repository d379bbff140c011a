-- ===== src/Core/Address/RoundTrip.antt =====
-- What addresses of wallet-sdk/src/core/utils.ts are: parsing what is shown, and comparing.
use reth_monmouth.Common.{
  ℕ, zero, suc, ◌/◌, ◌%◌, ◌<◌, ◌≡◌, ◌⊎◌, ◌↔◌, repeat, none, refl, ap, sym, ◌∙◌, Bool, true, ◌&&◌,
  ◌||◌, some, List, [], ◌∷◌, ◌++◌, map, leb, ◌==◌, Option-cases, inl, inr, length, all, All, Some,
  arith,
}
use mathlib.Core.Option.{none-ne-some}
use reth_monmouth.Common.Text.{Text, lower, codes}
use reth_monmouth.Core.Types.{ChainType, UniversalAddress}
use reth_monmouth.Core.Hex.{
  IsByte, nibbles, hex_char, bytes_to_hex, hex_to_bytes-bytes_to_hex, length-map-nibbles,
}
use reth_monmouth.Core.Base58.{bytes_to_base58, base58_to_bytes}
use reth_monmouth.Core.Base58.RoundTrip.{base58_to_bytes-bytes_to_base58}
use reth_monmouth.Core.Address.{
  create_address, is_lower_evm_address, parse_address, same_chain, same_bytes, address_equals,
}

-- The raw form of an account of the chain.
abbrev pub IsAccount : ChainType → List ℕ → Type 0
IsAccount ChainType.evm raw = All IsByte raw × (length raw ≡ 20)
IsAccount ChainType.svm raw = All IsByte raw × (length raw ≡ 32)

-- The address of Solana's system program: zeros alone.
abbrev pub IsSystemProgram : ChainType → List ℕ → Type 0
IsSystemProgram ChainType.evm raw = ⊥
IsSystemProgram ChainType.svm raw = All (λ b. b ≡ 0) raw

zeros_or_not : (raw : List ℕ) → All (λ b. b ≡ 0) raw ⊎ Some (λ b. 0 < b) raw
zeros_or_not [] = inl tt
zeros_or_not (zero ∷ raw) = elim (zeros_or_not raw) [
  | inl zeros ↦ inl (refl, zeros)
  | inr nonzero ↦ inr (inr nonzero)
]
zeros_or_not (suc b ∷ raw) = inr (inl (omega arith))

not_zeros : (raw : List ℕ) → Some (λ b. 0 < b) raw → ¬ All (λ b. b ≡ 0) raw
not_zeros [] h zeros = h
not_zeros (b ∷ raw) (inl h) (zero_here, zeros) = omega arith
not_zeros (b ∷ raw) (inr h) (zero_here, zeros) = not_zeros raw h zeros

zeros-repeat : (raw : List ℕ) → All (λ b. b ≡ 0) raw → raw ≡ repeat (length raw) 0
zeros-repeat [] h = refl
zeros-repeat (b ∷ raw) (here, zeros) = rw (here, ← zeros-repeat raw zeros) refl

abbrev is_lower_digit : ℕ → Bool
is_lower_digit c = (leb b'0' c && leb c b'9') || (leb b'a' c && leb c b'f')

hex_char-lower :
    (d : ℕ)
    → d < 16
    → (is_lower_digit (hex_char d) ≡ true) × (lower (hex_char d ∷ []) ≡ hex_char d ∷ [])
unfolding hex_char lower
hex_char-lower d h = (ground arith, ground arith)

lower-nibbles :
    (bytes : List ℕ)
    → All IsByte bytes
    → lower (map hex_char (nibbles bytes)) ≡ map hex_char (nibbles bytes)
unfolding lower nibbles
lower-nibbles [] h = refl
lower-nibbles (b ∷ bytes) (h, hs) =
    let high : b / 16 < 16 = omega arith in
    let low : b % 16 < 16 = omega arith in
    ground (
      arith,
      (hex_char-lower (b / 16) high).1,
      (hex_char-lower (b % 16) low).1,
      lower-nibbles bytes hs,
    )

all-nibbles :
    (bytes : List ℕ) → All IsByte bytes → all is_lower_digit (map hex_char (nibbles bytes)) ≡ true
unfolding nibbles
all-nibbles [] h = refl
all-nibbles (b ∷ bytes) (h, hs) =
    let high : b / 16 < 16 = omega arith in
    let low : b % 16 < 16 = omega arith in
    rw ((hex_char-lower (b / 16) high).0, (hex_char-lower (b % 16) low).0) (all-nibbles bytes hs)

lower-bytes_to_hex : (raw : List ℕ) → All IsByte raw → lower (bytes_to_hex raw) ≡ bytes_to_hex raw
unfolding bytes_to_hex lower
lower-bytes_to_hex raw h = ap (λ s. codes "0x" ++ s) (lower-nibbles raw h)

is_lower_evm_address-bytes_to_hex :
    (raw : List ℕ) → IsAccount ChainType.evm raw → is_lower_evm_address (bytes_to_hex raw) ≡ true
unfolding is_lower_evm_address bytes_to_hex
is_lower_evm_address-bytes_to_hex raw (h, twenty) =
    ground (arith, all-nibbles raw h, length-map-nibbles raw)

parse_evm :
    (raw : List ℕ)
    → IsAccount ChainType.evm raw
    → parse_address (bytes_to_hex raw) ChainType.evm ≡ create_address raw ChainType.evm
unfolding parse_address
parse_evm raw (h, twenty) = rw (
  lower-bytes_to_hex raw h,
  is_lower_evm_address-bytes_to_hex raw (h, twenty),
  hex_to_bytes-bytes_to_hex raw h,
)

parse_svm :
    (raw : List ℕ) (text : Text)
    → IsAccount ChainType.svm raw
    → Some (λ b. 0 < b) raw
    → bytes_to_base58 raw ≡ some text
    → parse_address text ChainType.svm ≡ create_address raw ChainType.svm
unfolding parse_address
parse_svm raw text (h, size) nonzero e =
    let back : base58_to_bytes text ≡ some raw =
      rw e at (base58_to_bytes-bytes_to_base58 raw h nonzero) in
    let whole : (length raw == 32) ≡ true = ground arith in rw back (rw whole)

create_evm :
    (raw : List ℕ)
    → create_address raw ChainType.evm
      ≡ some record { raw = raw; display = bytes_to_hex raw; chain_type = ChainType.evm }
unfolding create_address
create_evm raw = refl

create_svm :
    (raw : List ℕ) (text : Text)
    → bytes_to_base58 raw ≡ some text
    → create_address raw ChainType.svm
      ≡ some record { raw = raw; display = text; chain_type = ChainType.svm }
unfolding create_address
create_svm raw text e = rw e refl

-- The text of 32 zeros is 32 ones, which are read as 33 zeros.
system_program :
    (create_address (repeat 32 0) ChainType.svm
      ≡ some record { raw = repeat 32 0; display = repeat 32 b'1'; chain_type = ChainType.svm })
    × (parse_address (repeat 32 b'1') ChainType.svm ≡ none)
unfolding create_address parse_address bytes_to_base58 base58_to_bytes
system_program = (refl, refl)

-- The raw form of an account makes an address on either chain, and the text that it shows is parsed as
-- the same address, except for the 32 zero bytes of Solana's system program: they make an address too,
-- and its text is not parsed as that address.
pub parse_address-create_address :
    (raw : List ℕ) (chain : ChainType)
    → IsAccount chain raw
    → (a : UniversalAddress) × (create_address raw chain ≡ some a)
      × ((parse_address a.display chain ≡ some a) ↔ ¬ IsSystemProgram chain raw)
parse_address-create_address raw ChainType.evm h = (
  record { raw = raw; display = bytes_to_hex raw; chain_type = ChainType.evm },
  create_evm raw,
  (λ _ zeros. zeros, λ _. parse_evm raw h ∙ create_evm raw),
)
parse_address-create_address raw ChainType.svm (all_bytes, size) = elim (zeros_or_not raw) [
  | inl zeros ↦
      let same : raw ≡ repeat 32 0 = zeros-repeat raw zeros ∙ ap (λ n. repeat n 0) size in
      let (made, unread) = system_program in
      let refused : All (λ b. b ≡ 0) (repeat 32 0) = omega arith in
      rw same
        (_, made, (λ read. absurd (none-ne-some _ (sym unread ∙ read)), λ h. absurd (h refused)))
  | inr nonzero ↦
      let back = base58_to_bytes-bytes_to_base58 raw all_bytes nonzero in
      elim (Option-cases (bytes_to_base58 raw)) [
        | inl missing ↦ absurd (none-ne-some raw (rw missing at back))
        | inr (text, e) ↦ (
          record { raw = raw; display = text; chain_type = ChainType.svm },
          create_svm raw text e,
          (
            λ _. not_zeros raw nonzero,
            λ _. parse_svm raw text (all_bytes, size) nonzero e ∙ create_svm raw text e,
          ),
        )
      ]
]

pub same_chain_iff : (a b : ChainType) → (same_chain a b ≡ true) ↔ (a ≡ b)
unfolding same_chain
same_chain_iff ChainType.evm ChainType.evm = ((λ _. refl), (λ _. refl))
same_chain_iff ChainType.evm ChainType.svm = ((λ h. cc), (λ h. cc))
same_chain_iff ChainType.svm ChainType.evm = ((λ h. cc), (λ h. cc))
same_chain_iff ChainType.svm ChainType.svm = ((λ _. refl), (λ _. refl))

same_bytes-true : (xs ys : List ℕ) → length xs ≡ length ys → same_bytes xs ys ≡ true → xs ≡ ys
unfolding same_bytes
same_bytes-true [] [] h e = refl
same_bytes-true [] (y ∷ ys) h e = ground arith
same_bytes-true (x ∷ xs) [] h e = cc
same_bytes-true (x ∷ xs) (y ∷ ys) h e = ground (arith, same_bytes-true xs ys)

same_bytes_self : (xs : List ℕ) → same_bytes xs xs ≡ true
unfolding same_bytes
same_bytes_self [] = refl
same_bytes_self (x ∷ xs) = ground (arith, same_bytes_self xs)

-- Two addresses are equal if they are of one chain and of the same bytes; what they show is not read.
pub address_equals_iff :
    (a b : UniversalAddress)
    → (address_equals a b ≡ true) ↔ ((a.chain_type ≡ b.chain_type) × (a.raw ≡ b.raw))
unfolding address_equals
address_equals_iff a b =
    let (chain_to, chain_of) = same_chain_iff a.chain_type b.chain_type in
    (
      ground (arith, chain_to, same_bytes-true a.raw b.raw),
      λ (chain, raw). rw (chain_of chain, raw) (ground (arith, same_bytes_self b.raw)),
    )
