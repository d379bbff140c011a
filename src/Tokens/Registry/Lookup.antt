-- ===== src/Tokens/Registry/Lookup.antt =====
-- Looking a token up (wallet-sdk/src/tokens/TokenRegistry.ts): by symbol, by address, and on the chain.
-- What the contract's three calls answer is an argument: `none` for a call that fails.
use reth_monmouth.Common.{
  ℕ, ◌+◌, Bool, true, false, Option, none, some, List, [], ◌∷◌, ◌++◌, if◌then◌else◌, or_else,
  is_some, is_empty, length, filter,
}
use reth_monmouth.Common.Text.{Text, codes, upper, text_eq}
use reth_monmouth.Common.Assoc.{Assoc, lookup, insert, erase, values}
use reth_monmouth.Tokens.Types.{
  TokenInfo, Source, CachedToken, normalize_token_address, is_evm_address, address_on,
}
use reth_monmouth.Tokens.Registry.{TokenRegistry, update_items, get_address_key}

-- A token that is found counts if it is on the chain that was asked for.
unfoldable pub on_chain : Option Text → TokenInfo → Option TokenInfo
unfolding address_on
on_chain none token = some token
on_chain (some chain) token = if is_some (address_on chain token) then some token else none

symbol_in : Option Text → Option TokenInfo → Option TokenInfo → Option TokenInfo
unfolding on_chain
symbol_in chain (some token) custom = on_chain chain token
symbol_in chain none (some custom) = on_chain chain custom
symbol_in chain none none = none

unfoldable pub get_token_by_symbol : Text → Option Text → TokenRegistry → Option TokenInfo
unfolding symbol_in upper lookup
get_token_by_symbol symbol chain r =
    symbol_in chain (lookup (upper symbol) r.tokens) (lookup (upper symbol) r.custom_tokens)

pub record Metadata : Type 0 where
  pub name : Option Text
  pub symbol : Option Text
  pub decimals : Option ℕ

-- `text || fallback`
abbrev text_or : Option Text → Text → Text
text_or shown fallback = if is_empty (or_else shown []) then fallback else or_else shown []

unfoldable pub token_of : Text → Text → Metadata → Option TokenInfo
token_of place chain m =
    if is_empty (or_else m.name [])
    then if is_empty (or_else m.symbol []) then none else some (described place chain m)
    else some (described place chain m)
  where
    described : Text → Text → Metadata → TokenInfo
    described place chain m = record {
      symbol = text_or m.symbol (codes "UNKNOWN");
      name = text_or m.name (codes "Unknown Token");
      decimals = or_else m.decimals 18;
      logo_uri = none;
      addresses = (chain, place) ∷ [];
      verified = false;
      tags = some (codes "onchain" ∷ []);
      extensions = none;
    }

-- A client that is there, or a new one for the chain's URL.
make_client : Text → Option Text → Option Text → TokenRegistry → Bool × TokenRegistry
unfolding insert
make_client chain (some client) url r = (true, r)
make_client chain none none r = (false, r)
make_client chain none (some []) r = (false, r)
make_client chain none (some (c ∷ url)) r =
    (true, record r { clients = insert chain (c ∷ url) r.clients })

unfoldable pub get_client : Text → TokenRegistry → Bool × TokenRegistry
unfolding make_client lookup
get_client chain r = make_client chain (lookup chain r.clients) (lookup chain r.config.rpc_urls) r

pub data Fetched : Type 0 where
  unsupported_chain not_a_token : Fetched
  fetched : TokenInfo → Fetched

fetched_of : Option TokenInfo → Fetched
fetched_of none = Fetched.not_a_token
fetched_of (some token) = Fetched.fetched token

unfoldable pub fetch_on_chain_metadata :
    Text → Text → Metadata → TokenRegistry → Fetched × TokenRegistry
unfolding get_client fetched_of token_of
fetch_on_chain_metadata place chain reply r =
    let (connected, r') = get_client chain r in
    if connected
    then (fetched_of (token_of place chain reply), r')
    else (Fetched.unsupported_chain, r')

-- The entries of a token in the cache, one for each of its addresses.
cache_entries : CachedToken → Assoc Text → Assoc CachedToken → Assoc CachedToken
unfolding get_address_key insert
cache_entries entry [] cache = cache
cache_entries entry ((chain, place) ∷ places) cache =
    cache_entries entry places (insert (get_address_key place chain) entry cache)

unfoldable pub cache_token : ℕ → TokenInfo → Source → TokenRegistry → TokenRegistry
unfolding cache_entries update_items
cache_token now token source r =
    let entry : CachedToken = record {
      token = token;
      cached_at = now;
      expires_at = now + r.config.cache_ttl;
      source = source;
    } in
    update_items
      (λ items. record items {
        tokens = some (cache_entries entry token.addresses (or_else items.tokens []));
      })
      r

-- The first custom token that has the normalized address on the chain.
unfoldable pub custom_at : Text → Text → List TokenInfo → Option TokenInfo
unfolding address_on normalize_token_address text_eq
custom_at place chain [] = none
custom_at place chain (token ∷ rest) =
    let later = custom_at place chain rest in
    if is_placed place (address_on chain token) then some token else later
  where
    is_placed : Text → Option Text → Bool
    is_placed place none = false
    is_placed place (some found) = text_eq (normalize_token_address found) place

-- The answer from the chain, which a failure turns into none.
conclude : ℕ → Fetched → TokenRegistry → Option TokenInfo × TokenRegistry
unfolding cache_token
conclude now Fetched.unsupported_chain r = (none, r)
conclude now Fetched.not_a_token r = (none, r)
conclude now (Fetched.fetched token) r = (some token, cache_token now token Source.onchain r)

from_chain : ℕ → Fetched × TokenRegistry → Option TokenInfo × TokenRegistry
unfolding conclude
from_chain now (answer, r) = conclude now answer r

-- The index, then the custom tokens, then the chain.
unfoldable pub first_known :
    ℕ
    → Text
    → Text
    → Metadata
    → Option TokenInfo
    → Option TokenInfo
    → TokenRegistry
    → Option TokenInfo × TokenRegistry
unfolding from_chain fetch_on_chain_metadata
first_known now place chain reply (some token) custom r = (some token, r)
first_known now place chain reply none (some token) r = (some token, r)
first_known now place chain reply none none r =
    from_chain now (fetch_on_chain_metadata place chain reply r)

unfoldable pub get_token_by_address :
    ℕ → Text → Text → Metadata → TokenRegistry → Option TokenInfo × TokenRegistry
unfolding first_known custom_at normalize_token_address get_address_key lookup
get_token_by_address now place chain reply r =
    let normalized = normalize_token_address place in
    first_known now place chain reply
      (lookup (get_address_key normalized chain) r.tokens_by_address)
      (custom_at normalized chain (values r.custom_tokens)) r

unfoldable pub get_token :
    ℕ → Text → Text → Metadata → TokenRegistry → Option TokenInfo × TokenRegistry
unfolding get_token_by_address get_token_by_symbol is_evm_address
get_token now query chain reply r =
    if is_evm_address query
    then get_token_by_address now query chain reply r
    else (get_token_by_symbol query (some chain) r, r)

-- A client made with the old URL is dropped.
unfoldable pub set_rpc_url : Text → Text → TokenRegistry → TokenRegistry
unfolding insert erase
set_rpc_url chain url r = record r {
  config = record r.config { rpc_urls = insert chain url r.config.rpc_urls };
  clients = erase chain r.clients;
}

unfoldable pub get_tokens_for_chain : Text → TokenRegistry → List TokenInfo
unfolding address_on
get_tokens_for_chain chain r =
    let is_here : TokenInfo → Bool = λ token. is_some (address_on chain token) in
    filter is_here (values r.tokens) ++ filter is_here (values r.custom_tokens)

pub record TokenCount : Type 0 where
  pub total : ℕ
  pub verified : ℕ
  pub custom : ℕ

unfoldable pub get_token_count : TokenRegistry → TokenCount
get_token_count r = record {
  total = length r.tokens + length r.custom_tokens;
  verified = length (filter (λ t. t.verified) (values r.tokens));
  custom = length r.custom_tokens;
}
