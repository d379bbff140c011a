-- ===== src/Tokens/Registry.antt =====
-- wallet-sdk/src/tokens/TokenRegistry.ts: the registry of EVM tokens. A client of a chain is the URL
-- that it was made with. Storage is what the three items under the registry's prefix decode to, and
-- writing to it does not fail; listeners do not call back into the registry. The chain of a key is the
-- property's name itself, which `Number(chainId) || chainId` prints for each decimal id and each
-- cluster's name.
pub mod Custom
pub mod Lookup
pub mod Search
pub mod Lists
pub mod Safety
pub mod Cache
use reth_monmouth.Common.{
  with_listener, without_listener, ℕ, ◌+◌, Bool, true, false, Option, none, some, List, [], ◌∷◌,
  ◌++◌, map, if◌then◌else◌, or_else,
}
use mathlib.Core.Option
use reth_monmouth.Common.Text.{Text, codes, upper}
use reth_monmouth.Common.Assoc.{Assoc, lookup, insert, values}
use reth_monmouth.Tokens.Types.{
  TokenInfo, TokenList, CachedToken, CachedTokenList, Source, TokenRegistryEvent,
  normalize_token_address,
}
use reth_monmouth.Tokens.Constants.{
  common_tokens, default_token_list_urls, default_rpc_urls, token_ttl_ms,
}

pub record Config : Type 0 where
  pub token_list_urls : List Text
  pub enable_cache : Bool
  pub cache_ttl : ℕ
  pub rpc_urls : Assoc Text
  pub auto_load_lists : Bool

-- `TokenRegistryConfig`, all of which may be missing.
pub record TokenRegistryConfig : Type 0 where
  pub token_list_urls : Option (List Text)
  pub enable_cache : Option Bool
  pub cache_ttl : Option ℕ
  pub rpc_urls : Option (Assoc Text)
  pub auto_load_lists : Option Bool

-- The items `tokens`, `lists` and `custom`.
pub record Items : Type 0 where
  pub tokens : Option (Assoc CachedToken)
  pub lists : Option (Assoc CachedTokenList)
  pub custom : Option (List TokenInfo)

-- `none` where there is no `localStorage`.
abbrev pub Storage : Type 0
Storage = Option Items

pub record TokenRegistry : Type 0 where
  pub tokens : Assoc TokenInfo
  pub tokens_by_address : Assoc TokenInfo
  pub loaded_lists : Assoc TokenList
  pub custom_tokens : Assoc TokenInfo
  pub clients : Assoc Text
  pub listeners : List ℕ
  pub initialized : Bool
  pub config : Config
  pub storage : Storage
  pub delivered : List (ℕ × TokenRegistryEvent)

unfoldable pub emit : TokenRegistryEvent → TokenRegistry → TokenRegistry
emit event r = record r { delivered = r.delivered ++ map (λ l. (l, event)) r.listeners }

unfoldable pub get_address_key : Text → Text → Text
unfolding normalize_token_address
get_address_key place chain = chain ++ codes ":" ++ normalize_token_address place

-- The loop over the addresses of a token that enters it in the index.
unfoldable pub index_addresses : TokenInfo → Assoc Text → Assoc TokenInfo → Assoc TokenInfo
unfolding get_address_key insert
index_addresses token [] index = index
index_addresses token ((chain, place) ∷ places) index =
    index_addresses token places (insert (get_address_key place chain) token index)

-- The loop of `loadCommonTokens`.
load_common : List TokenInfo → TokenRegistry → TokenRegistry
unfolding index_addresses upper insert
load_common [] r = r
load_common (token ∷ rest) r = load_common rest (record r {
  tokens = insert (upper token.symbol) token r.tokens;
  tokens_by_address = index_addresses token token.addresses r.tokens_by_address;
})

unfoldable pub load_common_tokens : TokenRegistry → TokenRegistry
unfolding load_common
load_common_tokens = load_common common_tokens

-- A custom token, as `loadFromCache` and `addCustomToken` enter it.
unfoldable pub enter_custom : TokenInfo → TokenRegistry → TokenRegistry
unfolding index_addresses upper insert
enter_custom token r = record r {
  custom_tokens = insert (upper token.symbol) token r.custom_tokens;
  tokens_by_address = index_addresses token token.addresses r.tokens_by_address;
}

unfoldable pub enter_all : List TokenInfo → TokenRegistry → TokenRegistry
unfolding enter_custom
enter_all [] r = r
enter_all (token ∷ rest) r = enter_all rest (enter_custom token r)

stored_custom : Storage → List TokenInfo
stored_custom none = []
stored_custom (some items) = or_else items.custom []

unfoldable pub load_from_cache : TokenRegistry → TokenRegistry
unfolding enter_all stored_custom
load_from_cache r = enter_all (stored_custom r.storage) r

-- A change of what is stored, where caching is on and there is storage.
unfoldable pub update_items : (Items → Items) → TokenRegistry → TokenRegistry
update_items f r =
    if r.config.enable_cache then record r { storage = Option.map {A = Items} f r.storage } else r

unfoldable pub save_custom_tokens : TokenRegistry → TokenRegistry
unfolding update_items
save_custom_tokens r =
    update_items (λ items. record items { custom = some (values r.custom_tokens) }) r

-- The fields before the constructor loads anything.
unfoldable pub new_registry : TokenRegistryConfig → Storage → TokenRegistry
new_registry config storage = record {
  tokens = [];
  tokens_by_address = [];
  loaded_lists = [];
  custom_tokens = [];
  clients = [];
  listeners = [];
  initialized = false;
  config = record {
    token_list_urls = or_else config.token_list_urls default_token_list_urls;
    enable_cache = or_else config.enable_cache true;
    cache_ttl = or_else config.cache_ttl token_ttl_ms;
    rpc_urls = or_else config.rpc_urls default_rpc_urls;
    auto_load_lists = or_else config.auto_load_lists false;
  };
  storage = storage;
  delivered = [];
}

-- `if (this.config.enableCache) this.loadFromCache()`
unfoldable pub load_if : Bool → TokenRegistry → TokenRegistry
load_if true r = load_from_cache r
load_if false r = r

-- The constructor.
unfoldable pub create_token_registry : TokenRegistryConfig → Storage → TokenRegistry
create_token_registry config storage =
    load_if (or_else config.enable_cache true) (load_common_tokens (new_registry config storage))

unfoldable on : ℕ → TokenRegistry → TokenRegistry
on listener r = record r { listeners = with_listener listener r.listeners }

-- The function that `on` returns.
unfoldable off : ℕ → TokenRegistry → TokenRegistry
off listener r = record r { listeners = without_listener listener r.listeners }
