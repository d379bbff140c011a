-- ===== src/Tokens/Types.antt =====
-- wallet-sdk/src/tokens/types.ts: tokens, and the helpers on them. Chains are the texts that name
-- properties of `addresses`: `1` for Ethereum. An extension is the JSON text of its value.
use reth_monmouth.Common.{
  ℕ, Bool, ◌&&◌, ◌||◌, true, Option, none, some, List, [], ◌∷◌, ◌++◌, leb, ◌==◌, if◌then◌else◌,
  or_else, length, drop, any, all, is_empty,
}
use reth_monmouth.Common.Text.{Text, codes, lower, starts_with, text_eq}
use reth_monmouth.Common.Assoc.{Assoc, insert, lookup}

pub record TokenInfo : Type 0 where
  pub symbol : Text
  pub name : Text
  pub decimals : ℕ
  pub logo_uri : Option Text
  pub addresses : Assoc Text
  pub verified : Bool
  pub tags : Option (List Text)
  pub extensions : Option (Assoc Text)

pub record TokenListToken : Type 0 where
  pub chain_id : Text
  pub address : Text
  pub name : Text
  pub symbol : Text
  pub decimals : ℕ
  pub logo_uri : Option Text
  pub tags : Option (List Text)
  pub extensions : Option (Assoc Text)

-- What the registry reads of a list.
pub record TokenList : Type 0 where
  pub name : Text
  pub tokens : List TokenListToken

pub data SafetyLevel : Type 0 where
  verified trusted known unknown blocked : SafetyLevel

-- The warnings are numbered by what they say: 0 malicious, 1 user-added, 2 not recognized, 3 verify the
-- address.
pub record TokenSafetyResult : Type 0 where
  pub level : SafetyLevel
  pub is_safe : Bool
  pub warnings : List ℕ
  pub info : Option TokenInfo
  pub sources : List Text
  pub checked_at : ℕ

pub data Source : Type 0 where
  from_list onchain custom : Source

pub record CachedToken : Type 0 where
  pub token : TokenInfo
  pub cached_at : ℕ
  pub expires_at : ℕ
  pub source : Source

pub record CachedTokenList : Type 0 where
  pub list : TokenList
  pub url : Text
  pub cached_at : ℕ
  pub expires_at : ℕ

pub data MatchedField : Type 0 where
  by_symbol by_name by_address : MatchedField

-- The score in tenths.
pub record TokenSearchResult : Type 0 where
  pub token : TokenInfo
  pub score : ℕ
  pub matched_field : MatchedField

pub data ListError : Type 0 where
  fetch_failed invalid_format : ListError
  thrown : Text → ListError

pub data TokenRegistryEvent : Type 0 where
  token_added : TokenInfo → TokenRegistryEvent
  token_removed : Text → TokenRegistryEvent
  list_loaded : (url : Text) (count : ℕ) → TokenRegistryEvent
  list_failed : (url : Text) → ListError → TokenRegistryEvent
  cache_cleared : TokenRegistryEvent
  cache_expired : (count : ℕ) → TokenRegistryEvent

unfoldable pub normalize_token_address : Text → Text
unfolding lower starts_with
normalize_token_address address =
    if starts_with (codes "0x") (lower address) then lower address else address

is_hex_char : ℕ → Bool
is_hex_char c =
    (leb b'0' c && leb c b'9') || (leb b'a' c && leb c b'f') || (leb b'A' c && leb c b'F')

-- `/^0x[0-9a-fA-F]{40}$/`
unfoldable pub is_evm_address : Text → Bool
unfolding starts_with is_hex_char
is_evm_address address =
    starts_with (codes "0x") address && length address == 42 && all is_hex_char (drop 2 address)

is_base58_char : ℕ → Bool
is_base58_char c =
    (leb b'1' c && leb c b'9')
    || (leb b'A' c && leb c b'H')
    || (leb b'J' c && leb c b'N')
    || (leb b'P' c && leb c b'Z')
    || (leb b'a' c && leb c b'k')
    || (leb b'm' c && leb c b'z')

-- `/^[1-9A-HJ-NP-Za-km-z]{32,44}$/`
unfoldable pub is_solana_address : Text → Bool
unfolding is_base58_char
is_solana_address address =
    leb 32 (length address) && leb (length address) 44 && all is_base58_char address

-- `token.addresses[chain]`, where an empty text counts as none.
unfoldable pub address_on : Text → TokenInfo → Option Text
unfolding lookup
address_on chain token =
    let found = lookup chain token.addresses in if is_empty (or_else found []) then none else found

unfoldable pub token_list_token_to_info : TokenListToken → TokenInfo
token_list_token_to_info t = record {
  symbol = t.symbol;
  name = t.name;
  decimals = t.decimals;
  logo_uri = t.logo_uri;
  addresses = (t.chain_id, t.address) ∷ [];
  verified = true;
  tags = t.tags;
  extensions = t.extensions;
}

-- `{ ...old, ...new }`
unfoldable pub spread {ℓ} : {V : Type ℓ} → Assoc V → Assoc V → Assoc V
unfolding insert
spread old [] = old
spread old ((k, v) ∷ new) = spread (insert k v old) new

-- `[...new Set(tags)]`: the first of each tag stays.
distinct_onto : List Text → List Text → List Text
distinct_onto seen [] = seen
distinct_onto seen (t ∷ tags) =
    let skipped = distinct_onto seen tags in
    let kept = distinct_onto (seen ++ t ∷ []) tags in if any (text_eq t) seen then skipped else kept

-- An update that has no logo takes the logo away.
unfoldable pub merge_token_info : TokenInfo → TokenInfo → TokenInfo
unfolding spread distinct_onto text_eq
merge_token_info existing update = record {
  symbol = update.symbol;
  name = update.name;
  decimals = update.decimals;
  logo_uri = update.logo_uri;
  addresses = spread existing.addresses update.addresses;
  verified = existing.verified || update.verified;
  tags = some (distinct_onto [] (or_else existing.tags [] ++ or_else update.tags []));
  extensions = some (spread (or_else existing.extensions []) (or_else update.extensions []));
}
