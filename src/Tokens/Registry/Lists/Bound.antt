-- ===== src/Tokens/Registry/Lists/Bound.antt =====
-- The cache of lists is bounded (wallet-sdk/src/tokens/TokenRegistry.ts, `cacheList`).
use reth_monmouth.Common.{
  ℕ, suc, ◌-◌, ◌≡◌, ◌≤◌, ◌<◌, refl, ap, Option, none, some, List, [], ◌∷◌, arith, ltb, length, take,
  Bool-cases, Option-cases, sym, inl, inr, or_else, All, Some,
}
use mathlib.Core.Path.{subst}
use reth_monmouth.Common.Text.{Text, text_eq, text_eq_self}
use reth_monmouth.Common.Assoc.{Assoc, insert, erase}
use reth_monmouth.Memory.Sort.{sort, sort-All, length-sort}
use reth_monmouth.Tokens.Types.{TokenList, TokenListToken, CachedTokenList}
use reth_monmouth.Tokens.Constants.{max_cached_lists}
use reth_monmouth.Tokens.Registry.{TokenRegistry, Storage, update_items, emit}
use reth_monmouth.Tokens.Registry.Lists.{
  erase_keys, limit_lists, older_first, cache_list, add_list_token, add_list_tokens,
  process_token_list, ListReply, finish_load, load_from, load_list, get_cached_list,
}

abbrev HasEntry : {V : Type 0} → Text → Assoc V → Type 0
HasEntry key cache = Some (λ e. e.0 ≡ key) cache

module _ {V : Type 0} where
  length-insert-le : (key : Text) (v : V) (m : Assoc V) → length (insert key v m) ≤ suc (length m)
  unfolding insert
  length-insert-le key v [] = omega arith
  length-insert-le key v ((j, w) ∷ m) = ground (arith, length-insert-le key v m)

  -- Deleting a key that is there takes an entry away.
  length-erase : (key : Text) (m : Assoc V) → HasEntry key m → suc (length (erase key m)) ≡ length m
  unfolding erase
  length-erase key [] h = absurd h
  length-erase key ((j, w) ∷ m) (inl e) = rw (e, text_eq_self key) refl
  length-erase key ((j, w) ∷ m) (inr h) = elim (Bool-cases (text_eq key j)) [
    | inl here ↦ rw here refl
    | inr other ↦ rw other (ap (λ n. suc n) (length-erase key m h))
  ]

  HasEntry-members : (m : Assoc V) → All (λ e. HasEntry e.0 m) m
  HasEntry-members m = members m (λ key h. h)
    where
      members :
          (rest : Assoc V)
          → ((key : Text) → HasEntry key rest → HasEntry key m)
          → All (λ e. HasEntry e.0 m) rest
      members [] h = tt
      members ((j, w) ∷ rest) h = (h j (inl refl), members rest (λ key k. h key (inr k)))

-- Deleting keys that are there, one at a time, is only followed for the first of them: no more than
-- one list is above the limit when a list is stored.
erase_one :
    (entries : List (Text × CachedTokenList)) (cache : Assoc CachedTokenList)
    → All (λ e. HasEntry e.0 cache) entries
    → 0 < length entries
    → suc (length (erase_keys (take 1 entries) cache)) ≡ length cache
unfolding erase_keys
erase_one [] cache h k = elim k [ ]
erase_one ((url, cached) ∷ rest) cache (h, hs) k = length-erase url cache h

limit_lists-le :
    (cache : Assoc CachedTokenList)
    → length cache ≤ suc max_cached_lists
    → length (limit_lists cache) ≤ max_cached_lists
unfolding limit_lists
limit_lists-le cache h = elim (Bool-cases (ltb max_cached_lists (length cache))) [
  | inr fits ↦ rw fits (ground arith)
  | inl above ↦
      let one : length cache - max_cached_lists ≡ 1 = ground arith in
      let sorted = sort older_first cache in
      let size = length-sort older_first cache in
      let gone =
        erase_one sorted cache (sort-All older_first _ cache (HasEntry-members cache))
          (ground (arith, size)) in
      rw (above, one) (omega (arith, gone))
]

unfoldable pub stored_lists : Storage → Assoc CachedTokenList
stored_lists none = []
stored_lists (some items) = or_else items.lists []

-- Storage holds no more lists than the limit.
abbrev pub IsBounded : TokenRegistry → Type 0
IsBounded r = length (stored_lists r.storage) ≤ max_cached_lists

cache_list-IsBounded :
    (now : ℕ) (url : Text) (list : TokenList) (r : TokenRegistry)
    → IsBounded r
    → IsBounded (cache_list now url list r)
unfolding cache_list update_items stored_lists
cache_list-IsBounded now url list r h = elim (Bool-cases r.config.enable_cache) [
  | inr off ↦ rw off h
  | inl on ↦ elim (Option-cases r.storage) [
    | inl nowhere ↦ rw (on, nowhere) (omega arith)
    | inr (items, e) ↦
        rw (on, e)
          (limit_lists-le (insert url _ (or_else items.lists []))
            (omega (arith, (rw e at h), length-insert-le url _ (or_else items.lists []))))
  ]
]

storage-add_list_tokens :
    (list : List TokenListToken) (r : TokenRegistry) → (add_list_tokens list r).storage ≡ r.storage
unfolding add_list_tokens add_list_token
storage-add_list_tokens [] r = refl
storage-add_list_tokens (listed ∷ list) r = storage-add_list_tokens list (add_list_token listed r)

storage-process_token_list :
    (list : TokenList) (url : Text) (r : TokenRegistry)
    → (process_token_list list url r).storage ≡ r.storage
unfolding process_token_list
storage-process_token_list list url r = storage-add_list_tokens list.tokens _

finish_load-IsBounded :
    (now : ℕ) (url : Text) (reply : ListReply) (r : TokenRegistry)
    → IsBounded r
    → IsBounded (finish_load now url reply r).1
unfolding finish_load emit
finish_load-IsBounded now url (ListReply.failed message) r h = h
finish_load-IsBounded now url ListReply.not_ok r h = h
finish_load-IsBounded now url ListReply.malformed r h = h
finish_load-IsBounded now url (ListReply.answered list) r h =
    cache_list-IsBounded now url list (process_token_list list url r) (
      subst (λ s. length (stored_lists s) ≤ max_cached_lists)
        (sym (storage-process_token_list list url r)) h)

load_from-IsBounded :
    (now : ℕ) (url : Text) (reply : ListReply) (found : Option TokenList) (r : TokenRegistry)
    → IsBounded r
    → IsBounded (load_from now url reply found r).1
unfolding load_from
load_from-IsBounded now url reply none r h = finish_load-IsBounded now url reply r h
load_from-IsBounded now url reply (some list) r h =
    subst (λ s. length (stored_lists s) ≤ max_cached_lists)
      (sym (storage-process_token_list list url r)) h

-- However the call ends, loading a list keeps the number of stored lists within the limit.
pub load_list-IsBounded :
    (now : ℕ) (url : Text) (reply : ListReply) (r : TokenRegistry)
    → IsBounded r
    → IsBounded (load_list now url reply r).1
unfolding load_list
load_list-IsBounded now url reply r h =
    load_from-IsBounded now url reply (get_cached_list now url r) r h
