-- ===== src/Tests/Core.antt =====
-- Tests of the shared helpers (wallet-sdk/src/core/utils.ts) and of the identifiers made with them.
use reth_monmouth.Common.{
  ℕ, ◌≡◌, ◌>>=◌, ◌++◌, ◌↔◌, inl, inr, refl, false, none, some, List, [], ◌∷◌, arith, repeat,
}
use reth_monmouth.Common.Int.{pos, negsuc, ◌+ℤ◌}
use reth_monmouth.Common.Text.{Text, codes}
use reth_monmouth.Common.Decimal.{text_of_bigint, bigint_of_text}
use reth_monmouth.Core.Types.{ChainType, UniversalAddress}
use reth_monmouth.Core.Hex.{bytes_to_hex, hex_to_bytes}
use reth_monmouth.Core.Base58.{base58_char, bytes_to_base58, base58_to_bytes}
use reth_monmouth.Core.Base58.RoundTrip.{base58_to_bytes-bytes_to_base58}
use reth_monmouth.Core.Address.{
  create_address, parse_address, is_valid_address, get_function_selector,
}
use reth_monmouth.Core.Address.RoundTrip.{IsSystemProgram, parse_address-create_address}
use reth_monmouth.Core.Amount.{format_token_amount, parse_token_amount}
use reth_monmouth.Core.Amount.RoundTrip.{parse_token_amount-format_token_amount}
use reth_monmouth.Core.Json.{
  Value, Fields, IsPlain, is_text, get, replaced, revived, revived-replaced,
}
use reth_monmouth.AgentWallet.Did.{get_did}

hex_shown : bytes_to_hex (0 ∷ 255 ∷ 18 ∷ []) ≡ codes "0x00ff12"
unfolding bytes_to_hex
hex_shown = refl

-- JavaScript's number parser reads a pair by its first digits: bad digits are no error.
hex_read : hex_to_bytes (codes "0xAb1zzz-1") ≡ some (171 ∷ 1 ∷ 0 ∷ 255 ∷ [])
unfolding hex_to_bytes
hex_read = refl

hex_odd : hex_to_bytes (codes "0x123") ≡ none
unfolding hex_to_bytes
hex_odd = refl

base58_shown : bytes_to_base58 (0 ∷ 0 ∷ 1 ∷ 2 ∷ 3 ∷ []) ≡ some (codes "11Ldp")
unfolding bytes_to_base58
base58_shown = refl

base58_read : base58_to_bytes (codes "11Ldp") ≡ some (0 ∷ 0 ∷ 1 ∷ 2 ∷ 3 ∷ [])
unfolding base58_to_bytes
base58_read = refl

-- No bytes are an error, and zeros alone get one more when they are read.
base58_empty : bytes_to_base58 [] ≡ none
unfolding bytes_to_base58
base58_empty = refl

base58_zeros : base58_to_bytes (codes "11") ≡ some (0 ∷ 0 ∷ 0 ∷ [])
unfolding base58_to_bytes
base58_zeros = refl

-- The address of Solana's system program is not valid.
system_program : is_valid_address (repeat 32 b'1') ChainType.svm ≡ false
unfolding is_valid_address base58_to_bytes
system_program = refl

amount_shown : format_token_amount (pos 1230450) 6 ≡ codes "1.23045"
unfolding format_token_amount text_of_bigint
amount_shown = refl

amount_negative : format_token_amount (negsuc 4) 2 ≡ codes "0.-5"
unfolding format_token_amount text_of_bigint
amount_negative = refl

amount_read : parse_token_amount (codes "1.23045678") 6 ≡ some (pos 1230456)
unfolding parse_token_amount ◌+ℤ◌ bigint_of_text
amount_read = refl

-- The sign of "-0.5" is lost.
amount_sign : parse_token_amount (codes "-0.5") 1 ≡ some (pos 5)
unfolding parse_token_amount ◌+ℤ◌ bigint_of_text
amount_sign = refl

did_shown : get_did ChainType.evm (1 ∷ []) ≡ codes "did:key:z2LbKW"
unfolding get_did base58_char
did_shown = refl

selector : get_function_selector (1 ∷ 2 ∷ 3 ∷ 4 ∷ 5 ∷ []) ≡ some (1 ∷ 2 ∷ 3 ∷ 4 ∷ [])
unfolding get_function_selector
selector = refl

abbrev twenty : List ℕ
twenty = repeat 20 7

base58_to_bytes-bytes_to_base58_example :
    (bytes_to_base58 (0 ∷ 200 ∷ []) >>= base58_to_bytes) ≡ some (0 ∷ 200 ∷ [])
base58_to_bytes-bytes_to_base58_example =
    base58_to_bytes-bytes_to_base58 (0 ∷ 200 ∷ []) (omega arith, (omega arith, tt))
      (inr (inl (omega arith)))

abbrev solana_key : List ℕ
solana_key = repeat 31 0 ++ 9 ∷ []

parse_address-create_address_example :
    (a : UniversalAddress) × (create_address solana_key ChainType.svm ≡ some a)
    × ((parse_address a.display ChainType.svm ≡ some a)
        ↔ ¬ IsSystemProgram ChainType.svm solana_key)
parse_address-create_address_example =
    parse_address-create_address solana_key ChainType.svm (omega arith, refl)

abbrev address : Text → UniversalAddress
address display = record { raw = twenty; display = display; chain_type = ChainType.evm }

parse_token_amount-format_token_amount_example :
    parse_token_amount (format_token_amount (pos 1050) 3) 3 ≡ some (pos 1050)
parse_token_amount-format_token_amount_example = parse_token_amount-format_token_amount 1050 3

abbrev payload : Value
payload = Value.object (Fields.field (codes "amount") (Value.bigint (negsuc 4)) Fields.end)

plain : IsPlain payload
unfolding IsPlain is_text get
plain = (refl, (tt, tt))

revived-replaced_example : revived (replaced payload) ≡ some payload
revived-replaced_example = revived-replaced payload plain
