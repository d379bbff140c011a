-- ===== src/Tokens/Registry/Custom/Stored.antt =====
-- Custom tokens that are stored and loaded again (wallet-sdk/src/tokens/TokenRegistry.ts).
use reth_monmouth.Common.{
  ◌≡◌, refl, sym, ap, ◌∙◌, true, false, Option, none, some, List, [], ◌∷◌, ◌++◌, arith, or_else,
  Bool-cases, inl, inr, All,
}
use mathlib.Core.List.{append_assoc, append-nil}
use mathlib.Core.Path.{subst}
use reth_monmouth.Common.Text.{Text, upper, text_eq, text_eq-true, text_eq_self}
use reth_monmouth.Common.Assoc.{Assoc, insert, erase, values}
use reth_monmouth.Tokens.Types.{TokenInfo}
use reth_monmouth.Tokens.Constants.{common_tokens}
use reth_monmouth.Tokens.Registry.{
  TokenRegistry, TokenRegistryConfig, Items, Storage, emit, enter_custom, enter_all, update_items,
  save_custom_tokens, load_common, load_common_tokens, stored_custom, load_from_cache, new_registry,
  load_if, create_token_registry,
}
use reth_monmouth.Tokens.Registry.Custom.{
  customized, add_custom_token, remove_custom_token, forget_custom,
}

-- No entry has the key.
abbrev IsFresh : Text → Assoc TokenInfo → Type 0
IsFresh key = All (λ e. text_eq key e.0 ≡ false)

-- Each token stands under its symbol in capitals, which no later entry has.
abbrev pub WellKeyed : Assoc TokenInfo → Type 0
WellKeyed [] = Unit
WellKeyed ((key, token) ∷ m) = (key ≡ upper token.symbol) × IsFresh key m × WellKeyed m

text_eq_sym : (s u : Text) → text_eq s u ≡ false → text_eq u s ≡ false
text_eq_sym s u h = elim (Bool-cases (text_eq u s)) [
  | inl same ↦ ground (arith, text_eq-true u s same, text_eq_self u)
  | inr other ↦ other
]

IsFresh-insert :
    (key j : Text) (t : TokenInfo) (m : Assoc TokenInfo)
    → text_eq key j ≡ false
    → IsFresh key m
    → IsFresh key (insert j t m)
unfolding insert
IsFresh-insert key j t [] h k = (h, tt)
IsFresh-insert key j t ((i, u) ∷ m) h (k, ks) = elim (Bool-cases (text_eq j i)) [
  | inl same ↦ rw same (k, ks)
  | inr other ↦ rw other (k, IsFresh-insert key j t m h ks)
]

WellKeyed-insert :
    (t : TokenInfo) (m : Assoc TokenInfo) → WellKeyed m → WellKeyed (insert (upper t.symbol) t m)
unfolding insert
WellKeyed-insert t [] h = (refl, tt, tt)
WellKeyed-insert t ((j, u) ∷ m) (h, fresh, rest) = elim (Bool-cases (text_eq (upper t.symbol) j)) [
  | inl same ↦ rw same (sym (text_eq-true (upper t.symbol) j same), fresh, rest)
  | inr other ↦ rw other (
    h,
    IsFresh-insert j (upper t.symbol) t m (text_eq_sym (upper t.symbol) j other) fresh,
    WellKeyed-insert t m rest,
  )
]

IsFresh-erase : (key j : Text) (m : Assoc TokenInfo) → IsFresh key m → IsFresh key (erase j m)
unfolding erase
IsFresh-erase key j [] h = tt
IsFresh-erase key j ((i, u) ∷ m) (h, hs) = elim (Bool-cases (text_eq j i)) [
  | inl same ↦ rw same hs
  | inr other ↦ rw other (h, IsFresh-erase key j m hs)
]

WellKeyed-erase : (key : Text) (m : Assoc TokenInfo) → WellKeyed m → WellKeyed (erase key m)
unfolding erase
WellKeyed-erase key [] h = tt
WellKeyed-erase key ((j, u) ∷ m) (h, fresh, rest) = elim (Bool-cases (text_eq key j)) [
  | inl same ↦ rw same rest
  | inr other ↦ rw other (h, IsFresh-erase j key m fresh, WellKeyed-erase key m rest)
]

custom_tokens-update_items :
    (f : Items → Items) (r : TokenRegistry) → (update_items f r).custom_tokens ≡ r.custom_tokens
unfolding update_items
custom_tokens-update_items f r = elim (Bool-cases r.config.enable_cache) [
  | inl on ↦ rw on refl
  | inr off ↦ rw off refl
]

add_custom_token-keyed :
    (token : TokenInfo) (r : TokenRegistry)
    → WellKeyed r.custom_tokens
    → WellKeyed (add_custom_token token r).custom_tokens
unfolding add_custom_token save_custom_tokens emit enter_custom customized
add_custom_token-keyed token r h =
    let entered = enter_custom (customized token) r in
    subst WellKeyed (sym (custom_tokens-update_items _ entered))
      (WellKeyed-insert (customized token) r.custom_tokens h)

forget_custom-keyed :
    (symbol : Text) (found : Option TokenInfo) (r : TokenRegistry)
    → WellKeyed r.custom_tokens
    → WellKeyed (forget_custom symbol found r).1.custom_tokens
unfolding forget_custom save_custom_tokens emit
forget_custom-keyed symbol none r h = h
forget_custom-keyed symbol (some token) r h =
    subst WellKeyed (sym (custom_tokens-update_items _ _))
      (WellKeyed-erase symbol r.custom_tokens h)

-- Adding and removing custom tokens keeps each under its own symbol, once.
pub add_custom_token-WellKeyed :
    (token : TokenInfo) (symbol : Text) (r : TokenRegistry)
    → WellKeyed r.custom_tokens
    → WellKeyed (add_custom_token token r).custom_tokens
      × WellKeyed (remove_custom_token symbol r).1.custom_tokens
unfolding remove_custom_token
add_custom_token-WellKeyed token symbol r h =
    (add_custom_token-keyed token r h, forget_custom-keyed (upper symbol) _ r h)

insert-behind :
    (key : Text) (t : TokenInfo) (m : Assoc TokenInfo)
    → IsFresh key m
    → insert key t m ≡ m ++ (key, t) ∷ []
unfolding insert
insert-behind key t [] h = refl
insert-behind key t ((j, u) ∷ m) (h, hs) = rw h (ap (λ r. (j, u) ∷ r) (insert-behind key t m hs))

-- No key of the second has an entry in the first.
abbrev AreApart : Assoc TokenInfo → Assoc TokenInfo → Type 0
AreApart m = All (λ e. IsFresh e.0 m)

IsFresh-behind :
    (key j : Text) (t : TokenInfo) (m : Assoc TokenInfo)
    → text_eq j key ≡ false
    → IsFresh key m
    → IsFresh key (m ++ (j, t) ∷ [])
IsFresh-behind key j t [] h k = (text_eq_sym j key h, tt)
IsFresh-behind key j t ((i, u) ∷ m) h (k, ks) = (k, IsFresh-behind key j t m h ks)

AreApart-behind :
    (j : Text) (t : TokenInfo) (m rest : Assoc TokenInfo)
    → IsFresh j rest
    → AreApart m rest
    → AreApart (m ++ (j, t) ∷ []) rest
AreApart-behind j t m [] h k = tt
AreApart-behind j t m ((i, u) ∷ rest) (h, hs) (k, ks) =
    (IsFresh-behind i j t m h k, AreApart-behind j t m rest hs ks)

-- Tokens that are entered one after the other stand in that order.
custom_tokens-enter_all :
    (m : Assoc TokenInfo) (r : TokenRegistry)
    → WellKeyed m
    → AreApart r.custom_tokens m
    → (enter_all (values m) r).custom_tokens ≡ r.custom_tokens ++ m
unfolding enter_all enter_custom
custom_tokens-enter_all [] r h k = sym (append-nil r.custom_tokens)
custom_tokens-enter_all ((key, t) ∷ m) r (own, fresh, h) (k, ks) =
    let entered = enter_custom t r in
    let same : entered.custom_tokens ≡ r.custom_tokens ++ (key, t) ∷ [] =
      subst (λ j. insert j t r.custom_tokens ≡ r.custom_tokens ++ (key, t) ∷ []) own
        (insert-behind key t r.custom_tokens k) in
    let apart = AreApart-behind key t r.custom_tokens m fresh ks in
    custom_tokens-enter_all m entered h (subst (λ c. AreApart c m) (sym same) apart)
    ∙ ap (λ c. c ++ m) same
    ∙ append_assoc r.custom_tokens ((key, t) ∷ []) m

AreApart-nil : (m : Assoc TokenInfo) → AreApart [] m
AreApart-nil [] = tt
AreApart-nil (e ∷ m) = (tt, AreApart-nil m)

custom_tokens-load_common :
    (tokens : List TokenInfo) (r : TokenRegistry)
    → ((load_common tokens r).custom_tokens ≡ r.custom_tokens)
      × ((load_common tokens r).storage ≡ r.storage)
unfolding load_common
custom_tokens-load_common [] r = (refl, refl)
custom_tokens-load_common (token ∷ rest) r = custom_tokens-load_common rest _

custom_tokens-load_from_cache :
    (m : Assoc TokenInfo) (r : TokenRegistry)
    → WellKeyed m
    → r.custom_tokens ≡ []
    → stored_custom r.storage ≡ values m
    → (load_from_cache r).custom_tokens ≡ m
unfolding load_from_cache
custom_tokens-load_from_cache m r h none_yet stored =
    ap (λ ts. (enter_all ts r).custom_tokens) stored
    ∙ custom_tokens-enter_all m r h (subst (λ c. AreApart c m) (sym none_yet) (AreApart-nil m))
    ∙ ap (λ c. c ++ m) none_yet

-- What saving leaves in storage.
stored_custom-save_custom_tokens :
    (items : Items) (r : TokenRegistry)
    → r.config.enable_cache ≡ true
    → r.storage ≡ some items
    → stored_custom (save_custom_tokens r).storage ≡ values r.custom_tokens
unfolding stored_custom save_custom_tokens update_items
stored_custom-save_custom_tokens items r on stored = rw (on, stored) refl

create_token_registry-cached :
    (config : TokenRegistryConfig) (storage : Storage)
    → or_else config.enable_cache true ≡ true
    → create_token_registry config storage
      ≡ load_from_cache (load_common_tokens (new_registry config storage))
unfolding create_token_registry load_if
create_token_registry-cached config storage h =
    ap (λ b. load_if b (load_common_tokens (new_registry config storage))) h

custom_tokens-load_common_tokens :
    (r : TokenRegistry)
    → ((load_common_tokens r).custom_tokens ≡ r.custom_tokens)
      × ((load_common_tokens r).storage ≡ r.storage)
unfolding load_common_tokens
custom_tokens-load_common_tokens r = custom_tokens-load_common common_tokens r

custom_tokens-new_registry :
    (config : TokenRegistryConfig) (storage : Storage)
    → ((new_registry config storage).custom_tokens ≡ [])
      × ((new_registry config storage).storage ≡ storage)
unfolding new_registry
custom_tokens-new_registry config storage = (refl, refl)

-- A registry that is made with caching on, over the storage in which another one has saved its custom
-- tokens, starts with those custom tokens, if the other one had caching on, storage was there, and its
-- tokens stood under their symbols.
pub create_token_registry-save_custom_tokens :
    (config : TokenRegistryConfig) (items : Items) (r : TokenRegistry)
    → r.config.enable_cache ≡ true
    → r.storage ≡ some items
    → WellKeyed r.custom_tokens
    → or_else config.enable_cache true ≡ true
    → (create_token_registry config (save_custom_tokens r).storage).custom_tokens ≡ r.custom_tokens
create_token_registry-save_custom_tokens config items r on stored keyed again =
    let storage = (save_custom_tokens r).storage in
    let fresh = custom_tokens-new_registry config storage in
    let common = custom_tokens-load_common_tokens (new_registry config storage) in
    ap (λ s. s.custom_tokens) (create_token_registry-cached config storage again)
    ∙ custom_tokens-load_from_cache r.custom_tokens
        (load_common_tokens (new_registry config storage)) keyed (common.0 ∙ fresh.0)
        (ap stored_custom (common.1 ∙ fresh.1) ∙ stored_custom-save_custom_tokens items r on stored)
