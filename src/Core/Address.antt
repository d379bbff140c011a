-- ===== src/Core/Address.antt =====
-- wallet-sdk/src/core/utils.ts: addresses of both chains. A thrown error is `none`.
pub mod RoundTrip
use reth_monmouth.Common.{
  ℕ, Bool, true, false, ◌&&◌, ◌||◌, Option, none, some, ◌>>=◌, List, [], ◌∷◌, ltb, leb, ◌==◌,
  if◌then◌else◌, is_some, length, take, drop, all,
}
use mathlib.Core.Option
use reth_monmouth.Common.Text.{Text, codes, text_eq, lower, starts_with}
use reth_monmouth.Core.Types.{ChainType, UniversalAddress}
use reth_monmouth.Core.Hex.{bytes_to_hex, hex_to_bytes}
use reth_monmouth.Core.Base58.{bytes_to_base58, base58_to_bytes}

abbrev display_of : ChainType → List ℕ → Option Text
display_of ChainType.evm raw = some (bytes_to_hex raw)
display_of ChainType.svm raw = bytes_to_base58 raw

unfoldable pub create_address : List ℕ → ChainType → Option UniversalAddress
create_address raw chain = do
  display ← display_of chain raw
  some record { raw = raw; display = display; chain_type = chain }

-- `/^0x[0-9a-f]{40}$/`
unfoldable pub is_lower_evm_address : Text → Bool
unfolding starts_with
is_lower_evm_address s =
    starts_with (codes "0x") s
    && length s == 42
    && all (λ c. (leb b'0' c && leb c b'9') || (leb b'a' c && leb c b'f')) (drop 2 s)

unfoldable pub parse_address : Text → ChainType → Option UniversalAddress
unfolding is_lower_evm_address lower create_address
parse_address input ChainType.evm =
    let normalized = lower input in
    if is_lower_evm_address normalized
    then (hex_to_bytes normalized >>= λ bytes. create_address bytes ChainType.evm)
    else none
parse_address input ChainType.svm = do
  bytes ← base58_to_bytes input
  if length bytes == 32 then create_address bytes ChainType.svm else none

unfoldable pub is_valid_address : Text → ChainType → Bool
unfolding parse_address
is_valid_address input chain = is_some (parse_address input chain)

unfoldable pub same_chain : ChainType → ChainType → Bool
same_chain ChainType.evm ChainType.evm = true
same_chain ChainType.evm ChainType.svm = false
same_chain ChainType.svm ChainType.evm = false
same_chain ChainType.svm ChainType.svm = true

-- The loop over the indices of two arrays of one length.
same_bytes : List ℕ → List ℕ → Bool
same_bytes [] ys = true
same_bytes (x ∷ xs) [] = false
same_bytes (x ∷ xs) (y ∷ ys) = let rest = same_bytes xs ys in if x == y then rest else false

unfoldable pub address_equals : UniversalAddress → UniversalAddress → Bool
unfolding same_chain same_bytes
address_equals a b =
    if same_chain a.chain_type b.chain_type
    then if length a.raw == length b.raw then same_bytes a.raw b.raw else false
    else false

-- The first four bytes of call data.
unfoldable pub get_function_selector : List ℕ → Option (List ℕ)
get_function_selector calldata = if ltb (length calldata) 4 then none else some (take 4 calldata)
