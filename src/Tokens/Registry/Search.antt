-- ===== src/Tokens/Registry/Search.antt =====
-- `searchTokens` of wallet-sdk/src/tokens/TokenRegistry.ts; scores are tenths, and the limit is not
-- negative.
pub mod Rules
pub mod Decided
pub mod Complete
pub mod Results
use reth_monmouth.Common.{
  ℕ, ◌≤◌, ◌<◌, ◌≡◌, refl, ap, ◌∙◌, sym, Bool, true, false, not, ◌&&◌, ◌||◌, Option, none, some,
  List, [], ◌∷◌, ◌++◌, ltb, leb, if◌then◌else◌, or_else, is_some, is_empty, any, take, length, All,
  arith, Bool-cases, Option-cases, inl, inr, ◌⊎◌,
}
use mathlib.Core.List.{Mem}
use reth_monmouth.Common.Text.{Text, codes, lower, trim, starts_with, includes, text_eq}
use reth_monmouth.Common.Assoc.{Assoc, values}
use reth_monmouth.Memory.Sort.{sort, IsOrdered, sort-IsOrdered, sort-All, length-sort}
use reth_monmouth.Tokens.Types.{
  TokenInfo, TokenSearchResult, MatchedField, normalize_token_address, is_evm_address, address_on,
}
use reth_monmouth.Tokens.Registry.{TokenRegistry}

-- The defaults are 20 results and unverified tokens included.
pub record TokenSearchOptions : Type 0 where
  pub chain_id : Option Text
  pub limit : Option ℕ
  pub include_unverified : Option Bool
  pub tags : Option (List Text)

-- `query` is the address that the token has on the chain.
is_placed_at : Text → Option Text → Bool
unfolding normalize_token_address text_eq
is_placed_at query none = false
is_placed_at query (some place) =
    text_eq (normalize_token_address place) (normalize_token_address query)

placed_on : Text → TokenInfo → Option Text → Bool
unfolding is_placed_at address_on
placed_on query token none = false
placed_on query token (some chain) = is_placed_at query (address_on chain token)

-- Some address of the token has the query in it.
has_part : Text → Assoc Text → Bool
unfolding normalize_token_address includes
has_part query places =
    any (λ place. includes (lower query) (normalize_token_address place)) (values places)

-- The score of the first rule that matches, and what it matched.
score_of : TokenInfo → Text → Option Text → Option (ℕ × MatchedField)
unfolding placed_on has_part is_evm_address text_eq starts_with includes lower
score_of token query chain =
    let symbol = lower token.symbol in
    let name = lower token.name in
    if text_eq symbol query
    then some (10, MatchedField.by_symbol)
    else if starts_with query symbol
    then some (9, MatchedField.by_symbol)
    else if includes query symbol
    then some (7, MatchedField.by_symbol)
    else if starts_with query name
    then some (6, MatchedField.by_name)
    else if includes query name
    then some (4, MatchedField.by_name)
    else if is_evm_address query && placed_on query token chain
    then some (10, MatchedField.by_address)
    else if starts_with (codes "0x") query && ltb 4 (length query) && has_part query token.addresses
    then some (5, MatchedField.by_address)
    else none

hit_of : TokenInfo → Option (ℕ × MatchedField) → Option TokenSearchResult
hit_of token none = none
hit_of token (some (score, field)) =
    some record { token = token; score = score; matched_field = field }

unfoldable pub match_token : TokenInfo → Text → Option Text → Option TokenSearchResult
unfolding score_of hit_of
match_token token query chain = hit_of token (score_of token query chain)

-- The token is on the chain that was asked for, if any.
is_on : Option Text → TokenInfo → Bool
unfolding address_on
is_on none token = true
is_on (some chain) token = is_some (address_on chain token)

-- The token has one of the tags that were asked for, if any.
has_tag : List Text → TokenInfo → Bool
unfolding text_eq
has_tag [] token = true
has_tag (t ∷ tags) token = any (λ tag. any (text_eq tag) (or_else token.tags [])) (t ∷ tags)

unfoldable pub is_eligible : TokenSearchOptions → TokenInfo → Bool
unfolding is_on has_tag
is_eligible options token =
    is_on options.chain_id token
    && (or_else options.include_unverified true || token.verified)
    && has_tag (or_else options.tags []) token

-- A result that is found is put before the later ones.
add_hit : Option TokenSearchResult → List TokenSearchResult → List TokenSearchResult
add_hit none rest = rest
add_hit (some hit) rest = hit ∷ rest

unfoldable pub find_hits : Text → TokenSearchOptions → List TokenInfo → List TokenSearchResult
unfolding is_eligible match_token add_hit
find_hits query options [] = []
find_hits query options (token ∷ tokens) =
    let rest = find_hits query options tokens in
    if is_eligible options token
    then add_hit (match_token token query options.chain_id) rest
    else rest

-- `b.score - a.score`
abbrev pub scores_first : TokenSearchResult → TokenSearchResult → Bool
scores_first a b = leb b.score a.score

unfoldable pub all_tokens : TokenSearchOptions → TokenRegistry → List TokenInfo
all_tokens options r =
    values r.tokens
    ++ (if or_else options.include_unverified true then values r.custom_tokens else [])

unfoldable pub search_tokens : Text → TokenSearchOptions → TokenRegistry → List TokenSearchResult
unfolding find_hits all_tokens sort lower trim
search_tokens query options r =
    let normalized = trim (lower query) in
    let hits = find_hits normalized options (all_tokens options r) in
    if is_empty normalized then [] else take (or_else options.limit 20) (sort scores_first hits)
