-- ===== src/Tests/Tokens.antt =====
-- Tests of the token registry (wallet-sdk/src/tokens).
use reth_monmouth.Common.{
  ◌≡◌, ◌≤◌, ◌⊎◌, refl, true, false, none, some, List, [], ◌∷◌, arith, length, All, inl, or_else,
}
use reth_monmouth.Common.Text.{Text, codes, upper, lower, trim}
use reth_monmouth.Common.Assoc.{Assoc, lookup}
use reth_monmouth.Memory.Sort.{IsOrdered}
use reth_monmouth.Tokens.Types.{
  TokenInfo, TokenList, MatchedField, SafetyLevel, is_evm_address, normalize_token_address,
}
use reth_monmouth.Tokens.Constants.{usdc, dai, get_chain_name}
use reth_monmouth.Tokens.Registry.{
  TokenRegistry, TokenRegistryConfig, Items, index_addresses, get_address_key, save_custom_tokens,
  create_token_registry,
}
use reth_monmouth.Tokens.Registry.Custom.{customized, add_custom_token, remove_custom_token}
use reth_monmouth.Tokens.Registry.Custom.Stored.{
  WellKeyed, create_token_registry-save_custom_tokens,
}
use reth_monmouth.Tokens.Registry.Lookup.{Metadata}
use reth_monmouth.Tokens.Registry.Search.{TokenSearchOptions, search_tokens, scores_first}
use reth_monmouth.Tokens.Registry.Search.Results.{IsHit, IsComplete, search_tokens_lem}
use reth_monmouth.Tokens.Registry.Lists.{ListReply, process_token_list, load_list}
use reth_monmouth.Tokens.Registry.Lists.Growth.{IsVerified, process_token_list-IsVerified}
use reth_monmouth.Tokens.Registry.Lists.Bound.{IsBounded, stored_lists, load_list-IsBounded}
use reth_monmouth.Tokens.Registry.Safety.{is_blocked, check_token_safety}
use reth_monmouth.Tokens.Registry.Safety.Levels.{check_token_safety-add_custom_token}
use reth_monmouth.Tokens.Registry.Lookup.{custom_at}

-- DAI's address on Ethereum has 41 digits in the table of common tokens.
dai_address : is_evm_address (or_else (lookup (codes "1") dai.addresses) []) ≡ false
unfolding is_evm_address lookup
dai_address = refl

abbrev chain : Text
chain = codes "1"

abbrev usdc_address : Text
usdc_address = codes "0xA0b86991c6218b36c1d19D4a2e9Eb0cE3606eB48"

abbrev stored : Items
stored = record { tokens = none; lists = none; custom = none }

-- A registry that knows USDC on Ethereum.
abbrev usdc_one : TokenInfo
usdc_one = record usdc { addresses = (chain, usdc_address) ∷ [] }

registry : TokenRegistry
unfolding index_addresses
registry = record {
  tokens = (codes "USDC", usdc_one) ∷ [];
  tokens_by_address = index_addresses usdc_one usdc_one.addresses [];
  loaded_lists = [];
  custom_tokens = [];
  clients = [];
  listeners = [];
  initialized = false;
  config = record {
    token_list_urls = [];
    enable_cache = true;
    cache_ttl = 10;
    rpc_urls = [];
    auto_load_lists = false;
  };
  storage = some stored;
  delivered = [];
}

abbrev coin : TokenInfo
coin = record {
  symbol = codes "Coin";
  name = codes "A coin";
  decimals = 2;
  logo_uri = none;
  addresses = (chain, codes "0xC0") ∷ [];
  verified = true;
  tags = none;
  extensions = none;
}

-- A custom token at the address of USDC, added and removed: the index has lost USDC.
abbrev copy : TokenInfo
copy = record coin { addresses = (chain, usdc_address) ∷ [] }

usdc_found : lookup (get_address_key usdc_address chain) registry.tokens_by_address ≡ some usdc_one
unfolding registry lookup get_address_key
usdc_found = refl

usdc_lost :
    lookup
      (get_address_key usdc_address chain)
      (remove_custom_token (codes "coin") (add_custom_token copy registry)).1.tokens_by_address
    ≡ none
unfolding registry remove_custom_token add_custom_token lookup get_address_key
usdc_lost = refl

abbrev options : TokenSearchOptions
options = record { chain_id = none; limit = none; include_unverified = none; tags = none }

found_by_prefix :
    search_tokens (codes " Us") options registry
    ≡ record { token = usdc_one; score = 9; matched_field = MatchedField.by_symbol } ∷ []
unfolding registry search_tokens
found_by_prefix = refl

chain_shown : get_chain_name 8453 ≡ codes "Base"
unfolding get_chain_name
chain_shown = refl

search_tokens_lem_example :
    let results = search_tokens (codes "usd") options registry in
    let normalized = trim (lower (codes "usd")) in
    All (IsHit normalized options registry) results
    × IsOrdered scores_first results
    × (length results ≤ 20)
    × ((normalized ≡ []) ⊎ IsComplete normalized options registry 20 results)
search_tokens_lem_example = search_tokens_lem (codes "usd") options registry

abbrev nothing : Metadata
nothing = record { name = none; symbol = none; decimals = none }

same_key : get_address_key (codes "0xC0") chain ≡ get_address_key (codes "0Xc0") chain
unfolding get_address_key
same_key = refl

no_custom : WellKeyed registry.custom_tokens
unfolding registry
no_custom = tt

abbrev defaults : TokenRegistryConfig
defaults = record {
  token_list_urls = none;
  enable_cache = none;
  cache_ttl = none;
  rpc_urls = none;
  auto_load_lists = none;
}

with_coin : TokenRegistry
unfolding registry
with_coin = record registry { custom_tokens = (codes "COIN", coin) ∷ [] }

coin_keyed : WellKeyed with_coin.custom_tokens
unfolding with_coin upper
coin_keyed = (refl, tt, tt)

coin_cached : with_coin.config.enable_cache ≡ true
unfolding with_coin
coin_cached = refl

coin_stored : with_coin.storage ≡ some stored
unfolding with_coin
coin_stored = refl

create_token_registry-save_custom_tokens_example :
    (create_token_registry defaults (save_custom_tokens with_coin).storage).custom_tokens
    ≡ with_coin.custom_tokens
create_token_registry-save_custom_tokens_example =
    create_token_registry-save_custom_tokens defaults stored with_coin coin_cached coin_stored
      coin_keyed refl

abbrev list : TokenList
list = record {
  name = codes "A list";
  tokens =
      record {
        chain_id = chain;
        address = codes "0xC0";
        name = codes "A coin";
        symbol = codes "Coin";
        decimals = 2;
        logo_uri = none;
        tags = none;
        extensions = none;
      }
      ∷ [];
}

process_token_list-IsVerified_example :
    All
      (λ listed. IsVerified (upper listed.symbol) (process_token_list list (codes "u") registry))
      list.tokens
    × (IsVerified (codes "USDC") registry
        → IsVerified (codes "USDC") (process_token_list list (codes "u") registry))
process_token_list-IsVerified_example =
    process_token_list-IsVerified list (codes "u") (codes "USDC") registry

none_stored : IsBounded registry
unfolding registry stored_lists
none_stored = omega arith

load_list-IsBounded_example :
    IsBounded (load_list 5 (codes "u") (ListReply.answered list) registry).1
load_list-IsBounded_example =
    load_list-IsBounded 5 (codes "u") (ListReply.answered list) registry none_stored

abbrev block_list : Assoc (List Text)
block_list = (chain, codes "0xbad" ∷ []) ∷ []

bad_blocked : is_blocked block_list [] (normalize_token_address (codes "0xBad")) chain ≡ true
unfolding is_blocked normalize_token_address
bad_blocked = refl

coin_not_blocked : is_blocked block_list [] (normalize_token_address (codes "0xC0")) chain ≡ false
unfolding is_blocked normalize_token_address
coin_not_blocked = refl

coin_uncommon : custom_at (normalize_token_address (codes "0xC0")) chain [] ≡ none
unfolding custom_at
coin_uncommon = refl

check_token_safety-add_custom_token_example :
    check_token_safety block_list [] 7 (codes "0xC0") chain (add_custom_token coin registry)
    ≡ record {
      level = SafetyLevel.known;
      is_safe = true;
      warnings = 1 ∷ [];
      info = some (customized coin);
      sources = codes "custom" ∷ [];
      checked_at = 7;
    }
check_token_safety-add_custom_token_example =
    check_token_safety-add_custom_token block_list [] 7 (codes "0xC0") chain coin registry
      (inl refl) coin_not_blocked coin_uncommon
