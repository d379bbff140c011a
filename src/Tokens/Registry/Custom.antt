-- ===== src/Tokens/Registry/Custom.antt =====
-- Custom tokens (wallet-sdk/src/tokens/TokenRegistry.ts): `addCustomToken` and `removeCustomToken`.
pub mod Laws
pub mod Stored
use reth_monmouth.Common.{
  ℕ, ◌≡◌, refl, Bool, true, false, Option, none, some, List, [], ◌∷◌, ◌++◌, if◌then◌else◌, or_else,
}
use reth_monmouth.Common.Text.{Text, codes, upper}
use reth_monmouth.Common.Assoc.{Assoc, lookup, erase, values}
use reth_monmouth.Tokens.Types.{TokenInfo, TokenRegistryEvent}
use reth_monmouth.Tokens.Registry.{
  TokenRegistry, emit, get_address_key, enter_custom, index_addresses, save_custom_tokens,
}

-- The token as it is entered.
unfoldable pub customized : TokenInfo → TokenInfo
customized token = record token {
  verified = false;
  tags = some (or_else token.tags [] ++ codes "custom" ∷ []);
}

unfoldable pub add_custom_token : TokenInfo → TokenRegistry → TokenRegistry
unfolding emit save_custom_tokens enter_custom customized
add_custom_token token r =
    emit (TokenRegistryEvent.token_added (customized token))
      (save_custom_tokens (enter_custom (customized token) r))

-- The loop over the addresses of a token that takes them from the index.
unfoldable pub unindex_addresses : Assoc Text → Assoc TokenInfo → Assoc TokenInfo
unfolding get_address_key erase
unindex_addresses [] index = index
unindex_addresses ((chain, place) ∷ places) index =
    unindex_addresses places (erase (get_address_key place chain) index)

forget_custom : Text → Option TokenInfo → TokenRegistry → Bool × TokenRegistry
unfolding emit save_custom_tokens unindex_addresses erase
forget_custom symbol none r = (false, r)
forget_custom symbol (some token) r = (
  true,
  emit (TokenRegistryEvent.token_removed symbol) (
      save_custom_tokens (record r {
        tokens_by_address = unindex_addresses token.addresses r.tokens_by_address;
        custom_tokens = erase symbol r.custom_tokens;
      })),
)

unfoldable pub remove_custom_token : Text → TokenRegistry → Bool × TokenRegistry
unfolding forget_custom upper lookup
remove_custom_token symbol r =
    forget_custom (upper symbol) (lookup (upper symbol) r.custom_tokens) r

unfoldable pub get_custom_tokens : TokenRegistry → List TokenInfo
get_custom_tokens r = values r.custom_tokens
