-- ===== src/Tokens/Registry/Cache/Expiry.antt =====
-- What `cleanExpiredCache` of wallet-sdk/src/tokens/TokenRegistry.ts leaves.
use reth_monmouth.Common.{
  ℕ, ◌+◌, ◌≡◌, refl, ap, ◌∙◌, true, false, Option, none, some, [], ◌∷◌, arith, ltb, leb, filter,
  length, Bool-cases, inl, inr, or_else,
}
use mathlib.Core.Option
use reth_monmouth.Common.Assoc.{Assoc}
use reth_monmouth.Tokens.Registry.{TokenRegistry, Items, emit}
use reth_monmouth.Tokens.Registry.Cache.{
  clean, clean_item, clean_items, clean_storage, clean_expired_cache,
}

-- The entries that have not expired.
abbrev pub live : {V : Type 0} → (V → ℕ) → ℕ → Assoc V → Assoc V
live expiry now = filter (λ e. ltb now (expiry e.1))

abbrev pub dead : {V : Type 0} → (V → ℕ) → ℕ → Assoc V → ℕ
dead expiry now cache = length (filter (λ e. leb (expiry e.1) now) cache)

module _ {V : Type 0} (expiry : V → ℕ) (now : ℕ) where
  clean_lem :
      (cache : Assoc V) → clean expiry now cache ≡ (live expiry now cache, dead expiry now cache)
  unfolding clean
  clean_lem [] = refl
  clean_lem ((key, cached) ∷ cache) = elim (Bool-cases (leb (expiry cached) now)) [
    | inl expired ↦
        let gone : ltb now (expiry cached) ≡ false = ground arith in
        rw (clean_lem cache, expired, gone) refl
    | inr fresh ↦
        let kept : ltb now (expiry cached) ≡ true = ground arith in
        rw (clean_lem cache, fresh, kept) refl
  ]

-- What is left of an item, and how many of its entries went.
abbrev pub live_item : {V : Type 0} → (V → ℕ) → ℕ → Option (Assoc V) → Option (Assoc V)
live_item expiry now = Option.map (live expiry now)

abbrev pub dead_item : {V : Type 0} → (V → ℕ) → ℕ → Option (Assoc V) → ℕ
dead_item expiry now item = dead expiry now (or_else item [])

clean_item_lem :
    {V : Type 0} (expiry : V → ℕ) (now : ℕ) (item : Option (Assoc V))
    → clean_item expiry now item ≡ (live_item expiry now item, dead_item expiry now item)
unfolding clean_item
clean_item_lem expiry now none = refl
clean_item_lem expiry now (some cache) = rw (clean_lem expiry now cache) refl

-- The tokens and the lists that storage has, with the time at which each expires.
abbrev pub live_items : ℕ → Items → Items
live_items now items = record items {
  tokens = live_item (λ c. c.expires_at) now items.tokens;
  lists = live_item (λ c. c.expires_at) now items.lists;
}

abbrev pub dead_items : ℕ → Items → ℕ
dead_items now items =
    dead_item (λ c. c.expires_at) now items.tokens + dead_item (λ c. c.expires_at) now items.lists

clean_items_lem :
    (now : ℕ) (items : Items) → clean_items now items ≡ (live_items now items, dead_items now items)
unfolding clean_items
clean_items_lem now items =
    rw
      (
        clean_item_lem (λ c. c.expires_at) now items.tokens,
        clean_item_lem (λ c. c.expires_at) now items.lists,
      )
      refl

clean_storage_lem :
    (now : ℕ) (items : Items)
    → clean_storage now (some items) ≡ (some (live_items now items), dead_items now items)
unfolding clean_storage
clean_storage_lem now items = ap (λ p. (some p.0, p.1)) (clean_items_lem now items)

-- With caching on and storage there, the entries that have not expired are what is left of the tokens
-- and of the lists, the custom tokens stay, and the number that is returned is the number of entries
-- that went.
pub clean_expired_cache_lem :
    (now : ℕ) (items : Items) (r : TokenRegistry)
    → r.config.enable_cache ≡ true
    → r.storage ≡ some items
    → ((clean_expired_cache now r).1.storage ≡ some (live_items now items))
      × ((clean_expired_cache now r).0 ≡ dead_items now items)
unfolding clean_expired_cache emit
clean_expired_cache_lem now items r on stored =
    let cleaned : clean_storage now r.storage
        ≡ (some (live_items now items), dead_items now items) =
      ap (clean_storage now) stored ∙ clean_storage_lem now items in
    elim (Bool-cases (ltb 0 (dead_items now items))) [
      | inl changed ↦ rw (cleaned, on) (rw changed (refl, refl))
      | inr clean_already ↦ rw (cleaned, on) (rw clean_already (refl, refl))
    ]
