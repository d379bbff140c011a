-- ===== src/Tokens/Registry/Search/Results.antt =====
-- What `searchTokens` of wallet-sdk/src/tokens/TokenRegistry.ts finds.
use reth_monmouth.Common.{
  ℕ, ◌≤◌, ◌≡◌, ◌≢◌, ◌⊎◌, refl, Bool, true, false, Option, none, some, List, [], ◌∷◌, ◌++◌, or_else,
  is_empty, length, All, Some, All-take, length-take-le, arith, Bool-cases, inl, inr,
}
use mathlib.Core.Path.{subst}
use mathlib.Core.Option.{some_inj, none-ne-some}
use reth_monmouth.Common.Text.{Text, lower, trim}
use reth_monmouth.Common.Assoc.{values}
use reth_monmouth.Memory.Sort.{sort, IsOrdered, IsOrdered-take, sort-IsOrdered, sort-All}
use reth_monmouth.Tokens.Types.{TokenInfo, TokenSearchResult}
use reth_monmouth.Tokens.Registry.{TokenRegistry}
use reth_monmouth.Tokens.Registry.Search.{
  TokenSearchOptions, match_token, add_hit, find_hits, is_eligible, scores_first, search_tokens,
  all_tokens,
}
use reth_monmouth.Tokens.Registry.Search.Rules.{rules, IsFirst, IsEligible}
use reth_monmouth.Tokens.Registry.Search.Decided.{match_token-some, is_eligible_iff}
use reth_monmouth.Tokens.Registry.Search.Complete.{IsCovered, find_hits-IsFound, All-IsCovered}

-- A token of the registry, or one of the custom tokens, unless unverified tokens are left out.
abbrev pub IsSearched : TokenSearchOptions → TokenRegistry → TokenInfo → Type 0
IsSearched options r token =
    Some (λ t. t ≡ token) (values r.tokens)
    ⊎ ((options.include_unverified ≢ some false) × Some (λ t. t ≡ token) (values r.custom_tokens))

-- What the search promises of a result: its token is searched and eligible, and its score and field are
-- those of the first rule that applies.
abbrev pub IsHit : Text → TokenSearchOptions → TokenRegistry → TokenSearchResult → Type 0
IsHit query options r hit =
    IsSearched options r hit.token
    × IsEligible options hit.token
    × IsFirst hit.token query options.chain_id rules hit.score hit.matched_field

abbrev IsListed : Text → TokenSearchOptions → List TokenInfo → TokenSearchResult → Type 0
IsListed query options tokens hit =
    Some (λ t. t ≡ hit.token) tokens
    × IsEligible options hit.token
    × IsFirst hit.token query options.chain_id rules hit.score hit.matched_field

add_hit-All :
    {P : TokenSearchResult → Type 0} (found : Option TokenSearchResult)
    (rest : List TokenSearchResult)
    → ((hit : TokenSearchResult) → found ≡ some hit → P hit)
    → All P rest
    → All P (add_hit found rest)
unfolding add_hit
add_hit-All none rest h k = k
add_hit-All (some hit) rest h k = (h hit refl, k)

module _ (query : Text) (options : TokenSearchOptions) where
  IsListed-later :
      (token : TokenInfo) (tokens : List TokenInfo) (hits : List TokenSearchResult)
      → All (IsListed query options tokens) hits
      → All (IsListed query options (token ∷ tokens)) hits
  IsListed-later token tokens [] h = tt
  IsListed-later token tokens (hit ∷ hits) ((member, eligible, scored), hs) =
      ((inr member, eligible, scored), IsListed-later token tokens hits hs)

  found-IsListed :
      (token : TokenInfo) (tokens : List TokenInfo) (hit : TokenSearchResult)
      → is_eligible options token ≡ true
      → match_token token query options.chain_id ≡ some hit
      → IsListed query options (token ∷ tokens) hit
  found-IsListed token tokens hit eligible e =
      let (same, first) = match_token-some token query options.chain_id hit e in
      (
        inl same,
        subst (IsEligible options) same ((is_eligible_iff options token).0 eligible),
        subst (λ t. IsFirst t query options.chain_id rules hit.score hit.matched_field) same first,
      )

  find_hits-IsListed :
      (tokens : List TokenInfo)
      → All (IsListed query options tokens) (find_hits query options tokens)
  unfolding find_hits
  find_hits-IsListed [] = tt
  find_hits-IsListed (token ∷ tokens) =
      let later =
        IsListed-later token tokens (find_hits query options tokens) (find_hits-IsListed tokens) in
      elim (Bool-cases (is_eligible options token)) [
        | inr refused ↦ rw refused later
        | inl eligible ↦ rw eligible (
            add_hit-All (match_token token query options.chain_id) (find_hits query options tokens)
              (λ hit e. found-IsListed token tokens hit eligible e) later)
      ]

Some-append :
    (P : TokenInfo → Type 0) (xs ys : List TokenInfo) → Some P (xs ++ ys) → Some P xs ⊎ Some P ys
Some-append P [] ys h = inr h
Some-append P (x ∷ xs) ys (inl h) = inl (inl h)
Some-append P (x ∷ xs) ys (inr h) = elim (Some-append P xs ys h) [
  | inl left ↦ inl (inr left)
  | inr right ↦ inr right
]

All-append :
    (P : TokenInfo → Type 0) (xs ys : List TokenInfo) → All P (xs ++ ys) → All P xs × All P ys
All-append P [] ys h = (tt, h)
All-append P (x ∷ xs) ys (h, hs) = let (left, right) = All-append P xs ys hs in ((h, left), right)

-- Unverified tokens are searched, or the option says that they are not.
includes_or_not :
    (o : Option Bool) → ((or_else o true ≡ true) × (o ≢ some false)) ⊎ (o ≡ some false)
includes_or_not none = inl (refl, λ h. none-ne-some false h)
includes_or_not (some true) = inl (refl, λ h. cc (some_inj.0 h))
includes_or_not (some false) = inr refl

all_tokens-on :
    (options : TokenSearchOptions) (r : TokenRegistry)
    → or_else options.include_unverified true ≡ true
    → all_tokens options r ≡ values r.tokens ++ values r.custom_tokens
unfolding all_tokens
all_tokens-on options r h = rw h refl

all_tokens-off :
    (options : TokenSearchOptions) (r : TokenRegistry)
    → options.include_unverified ≡ some false
    → all_tokens options r ≡ values r.tokens ++ []
unfolding all_tokens
all_tokens-off options r h = rw h refl

all_tokens-IsSearched :
    (options : TokenSearchOptions) (r : TokenRegistry) (token : TokenInfo)
    → Some (λ t. t ≡ token) (all_tokens options r)
    → IsSearched options r token
all_tokens-IsSearched options r token member = elim (includes_or_not options.include_unverified) [
  | inl (searched, on) ↦
      elim (Some-append _ (values r.tokens) (values r.custom_tokens)
        (subst (Some (λ t. t ≡ token)) (all_tokens-on options r searched) member)) [
          | inl own ↦ inl own
          | inr custom ↦ inr (on, custom)
        ]
  | inr off ↦
      elim (Some-append _ (values r.tokens) []
        (subst (Some (λ t. t ≡ token)) (all_tokens-off options r off) member)) [
          | inl own ↦ inl own
          | inr nowhere ↦ absurd nowhere
        ]
]

All-IsListed-IsHit :
    (query : Text) (options : TokenSearchOptions) (r : TokenRegistry)
    (hits : List TokenSearchResult)
    → All (IsListed query options (all_tokens options r)) hits
    → All (IsHit query options r) hits
All-IsListed-IsHit query options r [] h = tt
All-IsListed-IsHit query options r (hit ∷ hits) ((member, eligible, first), hs) = (
  (all_tokens-IsSearched options r hit.token member, eligible, first),
  All-IsListed-IsHit query options r hits hs,
)

is_empty-eq : (query : Text) → is_empty query ≡ true → query ≡ []
is_empty-eq [] h = refl
is_empty-eq (c ∷ query) h = cc

-- Every token that is searched is covered.
abbrev pub IsComplete :
    Text → TokenSearchOptions → TokenRegistry → ℕ → List TokenSearchResult → Type 0
IsComplete query options r limit results =
    All (IsCovered query options limit results) (values r.tokens)
    × ((options.include_unverified ≡ some false)
        ⊎ All (IsCovered query options limit results) (values r.custom_tokens))

all_tokens-IsComplete :
    (query : Text) (options : TokenSearchOptions) (r : TokenRegistry) (limit : ℕ)
    (results : List TokenSearchResult)
    → All (IsCovered query options limit results) (all_tokens options r)
    → IsComplete query options r limit results
all_tokens-IsComplete query options r limit results h =
    elim (includes_or_not options.include_unverified) [
      | inl (searched, on) ↦
          let (own, custom) = All-append _ (values r.tokens) (values r.custom_tokens) (
            subst (All (IsCovered query options limit results)) (all_tokens-on options r searched)
              h) in
          (own, inr custom)
      | inr off ↦
          let (own, none_more) = All-append _ (values r.tokens) [] (
            subst (All (IsCovered query options limit results)) (all_tokens-off options r off) h) in
          (own, inl off)
    ]

-- Each result has a token of the registry, or a custom token unless unverified tokens are left out,
-- that is on the chain, verified and tagged as the options ask, with the score and the field of the
-- first rule that applies; the higher scores come first, and they are no more than the limit. And
-- nothing is missed, unless the query is blank: each such token has a result, or no rule applies to it,
-- or the limit is reached by results that score no less.
pub search_tokens_lem :
    (query : Text) (options : TokenSearchOptions) (r : TokenRegistry)
    → let normalized = trim (lower query) in
      let results = search_tokens query options r in
      let limit = or_else options.limit 20 in
      All (IsHit normalized options r) results
      × IsOrdered scores_first results
      × (length results ≤ limit)
      × ((normalized ≡ []) ⊎ IsComplete normalized options r limit results)
unfolding search_tokens
search_tokens_lem query options r = elim (Bool-cases (is_empty (trim (lower query)))) [
  | inl blank ↦ rw blank (tt, tt, omega arith, inl (is_empty-eq (trim (lower query)) blank))
  | inr asked ↦
      let tokens = all_tokens options r in
      let hits = find_hits (trim (lower query)) options tokens in
      let limit = or_else options.limit 20 in
      rw asked (
        All-take _ limit (sort scores_first hits) (
            sort-All scores_first _ hits
              (All-IsListed-IsHit _ options r hits (find_hits-IsListed _ options tokens))),
        IsOrdered-take scores_first limit (sort scores_first hits)
            (sort-IsOrdered scores_first (λ a b h. ground arith) (λ a b c h k. ground arith) hits),
        length-take-le limit (sort scores_first hits),
        inr (
            all_tokens-IsComplete _ options r limit _
              (All-IsCovered _ options limit hits tokens (find_hits-IsFound _ options tokens))),
      )
]
