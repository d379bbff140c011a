-- ===== src/Tokens/Registry/Lists.antt =====
-- Token lists (wallet-sdk/src/tokens/TokenRegistry.ts): the answer of `fetch` is an argument.
-- `load_list` is the call from the cache on; the events of one call stand together.
pub mod Growth
pub mod Bound
use reth_monmouth.Common.{
  ℕ, zero, suc, ◌+◌, ◌-◌, Bool, true, false, not, Option, none, some, List, [], ◌∷◌, ◌++◌, map, ltb,
  leb, if◌then◌else◌, or_else, length, take, is_some,
}
use reth_monmouth.Common.Text.{Text, upper}
use reth_monmouth.Common.Assoc.{Assoc, lookup, insert, erase, values}
use reth_monmouth.Memory.Sort.{sort}
use reth_monmouth.Tokens.Types.{
  TokenInfo, TokenList, TokenListToken, CachedTokenList, ListError, TokenRegistryEvent,
  token_list_token_to_info, merge_token_info,
}
use reth_monmouth.Tokens.Constants.{list_ttl_ms, max_cached_lists}
use reth_monmouth.Tokens.Registry.{TokenRegistry, Storage, emit, index_addresses, update_items}

-- A new token, or what an older one of the symbol becomes.
unfoldable pub merged_with : Option TokenInfo → TokenInfo → TokenInfo
unfolding merge_token_info
merged_with none token = token
merged_with (some existing) token = merge_token_info existing token

-- The body of the loop of `processTokenList`; only the list's own address is indexed.
unfoldable pub add_list_token : TokenListToken → TokenRegistry → TokenRegistry
unfolding token_list_token_to_info merged_with index_addresses lookup insert upper
add_list_token listed r =
    let token = token_list_token_to_info listed in
    let entry = merged_with (lookup (upper token.symbol) r.tokens) token in
    record r {
      tokens = insert (upper token.symbol) entry r.tokens;
      tokens_by_address = index_addresses entry token.addresses r.tokens_by_address;
    }

unfoldable pub add_list_tokens : List TokenListToken → TokenRegistry → TokenRegistry
unfolding add_list_token
add_list_tokens [] r = r
add_list_tokens (listed ∷ rest) r = add_list_tokens rest (add_list_token listed r)

unfoldable pub process_token_list : TokenList → Text → TokenRegistry → TokenRegistry
unfolding add_list_tokens insert
process_token_list list url r =
    add_list_tokens list.tokens (record r { loaded_lists = insert url list r.loaded_lists })

stored_list : Text → Storage → Option CachedTokenList
unfolding lookup
stored_list url none = none
stored_list url (some items) = lookup url (or_else items.lists [])

-- `cached && cached.expiresAt > now`
fresh_list : ℕ → Option CachedTokenList → Option TokenList
fresh_list now none = none
fresh_list now (some cached) = if ltb now cached.expires_at then some cached.list else none

unfoldable pub get_cached_list : ℕ → Text → TokenRegistry → Option TokenList
unfolding stored_list fresh_list
get_cached_list now url r =
    if r.config.enable_cache then fresh_list now (stored_list url r.storage) else none

erase_keys : List (Text × CachedTokenList) → Assoc CachedTokenList → Assoc CachedTokenList
unfolding erase
erase_keys [] cache = cache
erase_keys ((url, cached) ∷ rest) cache = erase_keys rest (erase url cache)

-- `cachedAt` ascending
abbrev pub older_first : Text × CachedTokenList → Text × CachedTokenList → Bool
older_first a b = leb a.1.cached_at b.1.cached_at

-- Deletes the oldest lists above the limit.
unfoldable pub limit_lists : Assoc CachedTokenList → Assoc CachedTokenList
unfolding erase_keys sort
limit_lists cache =
    if ltb max_cached_lists (length cache)
    then erase_keys (take (length cache - max_cached_lists) (sort older_first cache)) cache
    else cache

unfoldable pub cache_list : ℕ → Text → TokenList → TokenRegistry → TokenRegistry
unfolding limit_lists update_items insert
cache_list now url list r =
    let entry : CachedTokenList = record {
      list = list;
      url = url;
      cached_at = now;
      expires_at = now + list_ttl_ms;
    } in
    update_items
      (λ items. record items {
        lists = some (limit_lists (insert url entry (or_else items.lists [])));
      })
      r

-- What the fetch of a list comes to: an exception, an answer that is not `ok`, an answer that has no
-- array of tokens, or a list.
pub data ListReply : Type 0 where
  failed : Text → ListReply
  not_ok malformed : ListReply
  answered : TokenList → ListReply

unfoldable pub finish_load : ℕ → Text → ListReply → TokenRegistry → Option ℕ × TokenRegistry
unfolding emit process_token_list cache_list
finish_load now url (ListReply.failed message) r =
    (none, emit (TokenRegistryEvent.list_failed url (ListError.thrown message)) r)
finish_load now url ListReply.not_ok r =
    (none, emit (TokenRegistryEvent.list_failed url ListError.fetch_failed) r)
finish_load now url ListReply.malformed r =
    (none, emit (TokenRegistryEvent.list_failed url ListError.invalid_format) r)
finish_load now url (ListReply.answered list) r = (
  some (length list.tokens),
  emit (TokenRegistryEvent.list_loaded url (length list.tokens))
      (cache_list now url list (process_token_list list url r)),
)

load_from : ℕ → Text → ListReply → Option TokenList → TokenRegistry → Option ℕ × TokenRegistry
unfolding finish_load process_token_list
load_from now url reply (some list) r = (some (length list.tokens), process_token_list list url r)
load_from now url reply none r = finish_load now url reply r

unfoldable pub load_list : ℕ → Text → ListReply → TokenRegistry → Option ℕ × TokenRegistry
unfolding load_from get_cached_list
load_list now url reply r = load_from now url reply (get_cached_list now url r) r

-- The lists that are cached are processed in the order of the URLs when the calls are made.
begin_one : Text → Option TokenList → TokenRegistry → TokenRegistry
unfolding process_token_list
begin_one url none r = r
begin_one url (some list) r = process_token_list list url r

begin_loads : ℕ → List Text → TokenRegistry → TokenRegistry
unfolding begin_one get_cached_list
begin_loads now [] r = r
begin_loads now (url ∷ urls) r = begin_loads now urls (begin_one url (get_cached_list now url r) r)

-- The answers to the other calls, in the order in which they come, each with the clock's reading.
finish_loads : List (ℕ × Text × ListReply) → TokenRegistry → TokenRegistry
unfolding finish_load
finish_loads [] r = r
finish_loads ((now, url, reply) ∷ replies) r = finish_loads replies (finish_load now url reply r).1

unfoldable pub initialize : ℕ → List (ℕ × Text × ListReply) → TokenRegistry → TokenRegistry
unfolding begin_loads finish_loads
initialize now replies r =
    let loaded = finish_loads replies (begin_loads now r.config.token_list_urls r) in
    if r.initialized
    then r
    else if r.config.auto_load_lists
    then record loaded { initialized = true }
    else record r { initialized = true }

unfoldable pub get_loaded_lists : TokenRegistry → List TokenList
get_loaded_lists r = values r.loaded_lists
