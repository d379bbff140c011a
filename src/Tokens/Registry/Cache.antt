-- ===== src/Tokens/Registry/Cache.antt =====
-- The caches of wallet-sdk/src/tokens/TokenRegistry.ts: `clearCache` and `cleanExpiredCache`.
pub mod Expiry
use reth_monmouth.Common.{
  ℕ, suc, ◌+◌, ◌-◌, ◌≡◌, Bool, true, false, not, Option, none, some, List, [], ◌∷◌, ltb, leb,
  if◌then◌else◌, or_else, filter, length,
}
use mathlib.Core.Option
use reth_monmouth.Common.Text.{Text}
use reth_monmouth.Common.Assoc.{Assoc}
use reth_monmouth.Tokens.Types.{TokenInfo, CachedToken, CachedTokenList, TokenRegistryEvent}
use reth_monmouth.Tokens.Registry.{TokenRegistry, Items, Storage, emit}

clear_items : Option Items → TokenRegistry → TokenRegistry
unfolding emit
clear_items none r = r
clear_items (some items) r = emit TokenRegistryEvent.cache_cleared (record r {
  custom_tokens = [];
  storage = some record { tokens = none; lists = none; custom = none };
})

-- The index of addresses is left as it is.
unfoldable pub clear_cache : TokenRegistry → TokenRegistry
unfolding clear_items
clear_cache r = clear_items r.storage r

-- The loop over the entries: what is left, and how many went.
clean : {V : Type 0} → (V → ℕ) → ℕ → Assoc V → Assoc V × ℕ
clean expiry now [] = ([], 0)
clean expiry now ((key, cached) ∷ cache) =
    let (rest, count) = clean expiry now cache in
    if leb (expiry cached) now then (rest, suc count) else ((key, cached) ∷ rest, count)

clean_item : {V : Type 0} → (V → ℕ) → ℕ → Option (Assoc V) → Option (Assoc V) × ℕ
unfolding clean
clean_item expiry now none = (none, 0)
clean_item expiry now (some cache) =
    let (rest, count) = clean expiry now cache in (some rest, count)

clean_items : ℕ → Items → Items × ℕ
unfolding clean_item
clean_items now items =
    let (tokens, gone) = clean_item (λ c. c.expires_at) now items.tokens in
    let (lists, more) = clean_item (λ c. c.expires_at) now items.lists in
    (record items { tokens = tokens; lists = lists }, gone + more)

unfoldable pub clean_storage : ℕ → Storage → Storage × ℕ
unfolding clean_items
clean_storage now none = (none, 0)
clean_storage now (some items) =
    let (cleaned, count) = clean_items now items in (some cleaned, count)

unfoldable pub clean_expired_cache : ℕ → TokenRegistry → ℕ × TokenRegistry
unfolding clean_storage emit
clean_expired_cache now r =
    let (storage, count) = clean_storage now r.storage in
    let cleaned = record r { storage = storage } in
    if r.config.enable_cache
    then if ltb 0 count
      then (count, emit (TokenRegistryEvent.cache_expired count) cleaned)
      else (count, cleaned)
    else (0, r)
