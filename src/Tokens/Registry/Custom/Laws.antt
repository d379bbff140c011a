-- ===== src/Tokens/Registry/Custom/Laws.antt =====
-- What adding a custom token does to the lookups of wallet-sdk/src/tokens/TokenRegistry.ts, and the
-- custom tokens in storage.
use reth_monmouth.Common.{
  ℕ, ◌≡◌, refl, ap, ◌∙◌, true, false, some, [], ◌∷◌, ◌++◌, arith, Bool-cases, inl, inr, Some,
}
use mathlib.Core.Path.{subst}
use reth_monmouth.Common.Text.{Text, codes, lower, lower_idempotent, starts_with}
use reth_monmouth.Common.Assoc.{Assoc, lookup, insert, lookup-insert, lookup-insert_self}
use reth_monmouth.Tokens.Types.{TokenInfo, normalize_token_address}
use reth_monmouth.Tokens.Registry.{
  TokenRegistry, emit, get_address_key, index_addresses, enter_custom, update_items,
  save_custom_tokens,
}
use reth_monmouth.Tokens.Registry.Lookup.{Metadata, get_token_by_address, first_known}
use reth_monmouth.Tokens.Registry.Custom.{customized, add_custom_token}

-- The key of an address of the token.
abbrev pub HasKey : Text → Assoc Text → Type 0
HasKey key places = Some (λ p. get_address_key p.1 p.0 ≡ key) places

-- A key that the index has for the token keeps it while more addresses of it are entered.
index_addresses_keep :
    (token : TokenInfo) (places : Assoc Text) (index : Assoc TokenInfo) (key : Text)
    → lookup key index ≡ some token
    → lookup key (index_addresses token places index) ≡ some token
unfolding index_addresses
index_addresses_keep token [] index key h = h
index_addresses_keep token ((chain, place) ∷ places) index key h =
    let k = get_address_key place chain in
    index_addresses_keep token places (insert k token index) key
      (ground (arith, lookup-insert key k token index))

-- Each address of the token finds it.
pub lookup-index_addresses :
    (token : TokenInfo) (places : Assoc Text) (index : Assoc TokenInfo) (key : Text)
    → HasKey key places
    → lookup key (index_addresses token places index) ≡ some token
unfolding index_addresses
lookup-index_addresses token [] index key h = absurd h
lookup-index_addresses token ((chain, place) ∷ places) index key (inl e) =
    let k = get_address_key place chain in
    index_addresses_keep token places (insert k token index) key (
      subst (λ x. lookup x (insert k token index) ≡ some token) e
        (lookup-insert_self k token index))
lookup-index_addresses token ((chain, place) ∷ places) index key (inr h) =
    lookup-index_addresses token places (insert (get_address_key place chain) token index) key h

normalize_evm :
    (s : Text) → starts_with (codes "0x") (lower s) ≡ true → normalize_token_address s ≡ lower s
unfolding normalize_token_address
normalize_evm s h = rw h refl

normalize_other :
    (s : Text) → starts_with (codes "0x") (lower s) ≡ false → normalize_token_address s ≡ s
unfolding normalize_token_address
normalize_other s h = rw h refl

-- An address is normalized once.
pub normalize_token_address_idempotent :
    (s : Text) → normalize_token_address (normalize_token_address s) ≡ normalize_token_address s
normalize_token_address_idempotent s = elim (Bool-cases (starts_with (codes "0x") (lower s))) [
  | inl evm ↦
      let again : starts_with (codes "0x") (lower (lower s)) ≡ true = rw (lower_idempotent s) evm in
      rw (normalize_evm s evm) (normalize_evm (lower s) again ∙ lower_idempotent s)
  | inr other ↦ rw (normalize_other s other) (normalize_other s other)
]

pub get_address_key-normalize :
    (place chain : Text)
    → get_address_key (normalize_token_address place) chain ≡ get_address_key place chain
unfolding get_address_key
get_address_key-normalize place chain =
    ap (λ s. chain ++ codes ":" ++ s) (normalize_token_address_idempotent place)

pub tokens_by_address-add_custom_token :
    (token : TokenInfo) (r : TokenRegistry)
    → (add_custom_token token r).tokens_by_address
      ≡ index_addresses (customized token) token.addresses r.tokens_by_address
unfolding add_custom_token save_custom_tokens update_items emit enter_custom customized
tokens_by_address-add_custom_token token r = elim (Bool-cases r.config.enable_cache) [
  | inl on ↦ rw on refl
  | inr off ↦ rw off refl
]

get_token_by_address-indexed :
    (now : ℕ) (place chain : Text) (reply : Metadata) (t : TokenInfo) (r : TokenRegistry)
    → lookup (get_address_key (normalize_token_address place) chain) r.tokens_by_address ≡ some t
    → get_token_by_address now place chain reply r ≡ (some t, r)
unfolding get_token_by_address first_known
get_token_by_address-indexed now place chain reply t r h = rw h refl

pub lookup-add_custom_token :
    (place chain : Text) (token : TokenInfo) (r : TokenRegistry)
    → HasKey (get_address_key place chain) token.addresses
    → lookup
        (get_address_key (normalize_token_address place) chain)
        (add_custom_token token r).tokens_by_address
      ≡ some (customized token)
lookup-add_custom_token place chain token r h =
    let key = get_address_key place chain in
    rw (get_address_key-normalize place chain, tokens_by_address-add_custom_token token r)
      (lookup-index_addresses (customized token) token.addresses r.tokens_by_address key h)

-- An address of a token that was added finds it, and the chain is not asked.
pub get_token_by_address-add_custom_token :
    (now : ℕ) (place chain : Text) (reply : Metadata) (token : TokenInfo) (r : TokenRegistry)
    → HasKey (get_address_key place chain) token.addresses
    → get_token_by_address now place chain reply (add_custom_token token r)
      ≡ (some (customized token), add_custom_token token r)
get_token_by_address-add_custom_token now place chain reply token r h =
    get_token_by_address-indexed now place chain reply (customized token) (add_custom_token token r)
      (lookup-add_custom_token place chain token r h)
