-- ===== src/Tokens/Registry/Search/Rules.antt =====
-- The search rules of wallet-sdk/src/tokens/TokenRegistry.ts in declarative form: which tokens a search
-- is about, and what a query scores.
use reth_monmouth.Common.{
  ℕ, ◌<◌, ◌≡◌, ◌⊎◌, ◌↔◌, refl, ap, inl, inr, Bool, true, false, ◌&&◌, Option, none, some, List, [],
  ◌∷◌, ◌++◌, ltb, or_else, any_iff, length, Some, arith, Bool-cases, Option-cases,
}
use reth_monmouth.Common.Text.{Text, codes, lower, starts_with, includes, text_eq, text_eq_iff}
use reth_monmouth.Common.Assoc.{values}
use reth_monmouth.Tokens.Types.{
  TokenInfo, MatchedField, normalize_token_address, is_evm_address, address_on,
}
use reth_monmouth.Tokens.Registry.Search.{TokenSearchOptions, is_placed_at, placed_on, has_part}

abbrev pub StartsWith : Text → Text → Type 0
StartsWith p s = (rest : Text) × (s ≡ p ++ rest)

abbrev pub Includes : Text → Text → Type 0
Includes p s = (front : Text) × (rest : Text) × (s ≡ front ++ (p ++ rest))

-- The rules by which a query matches a token, best first.
pub data Rule : Type 0 where
  same_symbol symbol_starts symbol_has name_starts name_has same_place place_has : Rule

abbrev pub rules : List Rule
rules =
    same_symbol ∷ symbol_starts ∷ symbol_has ∷ name_starts ∷ name_has ∷ same_place ∷ place_has ∷ []

-- The score of a rule, in tenths.
abbrev pub score : Rule → ℕ
score same_symbol = 10
score symbol_starts = 9
score symbol_has = 7
score name_starts = 6
score name_has = 4
score same_place = 10
score place_has = 5

abbrev pub field : Rule → MatchedField
field same_symbol = MatchedField.by_symbol
field symbol_starts = MatchedField.by_symbol
field symbol_has = MatchedField.by_symbol
field name_starts = MatchedField.by_name
field name_has = MatchedField.by_name
field same_place = MatchedField.by_address
field place_has = MatchedField.by_address

-- The condition of a rule on a token, for a query in lower case and an optional chain.
abbrev pub Applies : TokenInfo → Text → Option Text → Rule → Type 0
Applies token query chain same_symbol = lower token.symbol ≡ query
Applies token query chain symbol_starts = StartsWith query (lower token.symbol)
Applies token query chain symbol_has = Includes query (lower token.symbol)
Applies token query chain name_starts = StartsWith query (lower token.name)
Applies token query chain name_has = Includes query (lower token.name)
Applies token query chain same_place =
    (is_evm_address query ≡ true)
    × ((c : Text) × (place : Text) × (chain ≡ some c)
        × (address_on c token ≡ some place)
        × (normalize_token_address place ≡ normalize_token_address query))
Applies token query chain place_has =
    (StartsWith (codes "0x") query × (4 < length query))
    × Some (λ place. Includes (lower query) (normalize_token_address place))
        (values token.addresses)

-- The first rule that applies has this score and field.
abbrev pub IsFirst : TokenInfo → Text → Option Text → List Rule → ℕ → MatchedField → Type 0
IsFirst token query chain [] s f = ⊥
IsFirst token query chain (rule ∷ later) s f =
    (Applies token query chain rule × (score rule ≡ s) × (field rule ≡ f))
    ⊎ (¬ Applies token query chain rule × IsFirst token query chain later s f)

-- A token that a search with these options is about.
pub record IsEligible (options : TokenSearchOptions) (token : TokenInfo) : Type 0 where
  pub on_chain :
      (c : Text) → options.chain_id ≡ some c → (place : Text) × (address_on c token ≡ some place)
  pub verified : options.include_unverified ≡ some false → token.verified ≡ true
  pub tagged :
      (or_else options.tags [] ≡ [])
      ⊎ Some (λ tag. Some (λ t. t ≡ tag) (or_else token.tags [])) (or_else options.tags [])

starts_with_to : (p s : Text) → starts_with p s ≡ true → StartsWith p s
unfolding starts_with
starts_with_to [] s h = (s, refl)
starts_with_to (a ∷ p) [] h = cc
starts_with_to (a ∷ p) (b ∷ s) h =
    let (rest, e) = starts_with_to p s (ground arith) in
    let same : a ≡ b = ground arith in (rest, cc)

starts_with_own : (p rest : Text) → starts_with p (p ++ rest) ≡ true
unfolding starts_with
starts_with_own [] rest = refl
starts_with_own (a ∷ p) rest = ground (arith, starts_with_own p rest)

pub starts_with_iff : (p s : Text) → (starts_with p s ≡ true) ↔ StartsWith p s
starts_with_iff p s = (starts_with_to p s, λ (rest, e). rw e (starts_with_own p rest))

includes_to : (p s : Text) → includes p s ≡ true → Includes p s
unfolding includes
includes_to p [] h = let (rest, e) = starts_with_to p [] h in ([], rest, e)
includes_to p (b ∷ s) h = elim (Bool-cases (starts_with p (b ∷ s))) [
  | inl here ↦ let (rest, e) = starts_with_to p (b ∷ s) here in ([], rest, e)
  | inr other ↦
      let (front, rest, e) = includes_to p s (rw other at h) in (b ∷ front, rest, ap (λ t. b ∷ t) e)
]

includes_start : (p s : Text) → starts_with p s ≡ true → includes p s ≡ true
unfolding includes
includes_start p [] h = h
includes_start p (b ∷ s) h = rw h refl

includes_inside : (p front rest : Text) → includes p (front ++ (p ++ rest)) ≡ true
unfolding includes
includes_inside p [] rest = includes_start p (p ++ rest) (starts_with_own p rest)
includes_inside p (c ∷ front) rest = ground (arith, includes_inside p front rest)

includes_iff : (p s : Text) → (includes p s ≡ true) ↔ Includes p s
includes_iff p s = (includes_to p s, λ (front, rest, e). rw e (includes_inside p front rest))

pub and_iff :
    {P Q : Type 0} (p q : Bool) → ((p ≡ true) ↔ P) → ((q ≡ true) ↔ Q) → (p && q ≡ true) ↔ (P × Q)
and_iff true q h k = (λ e. (h.0 refl, k.0 e), λ (_, y). k.1 y)
and_iff false q h k = (λ e. cc, λ (x, _). h.1 x)

placed_to :
    (query : Text) (token : TokenInfo) (chain : Option Text)
    → placed_on query token chain ≡ true
    → (c : Text) × (place : Text) × (chain ≡ some c)
      × (address_on c token ≡ some place)
      × (normalize_token_address place ≡ normalize_token_address query)
unfolding placed_on is_placed_at
placed_to query token none h = cc
placed_to query token (some c) h = elim (Option-cases (address_on c token)) [
  | inl missing ↦ cc (rw missing at h)
  | inr (place, e) ↦ (c, place, refl, e, (text_eq_iff _ _).0 (rw e at h))
]

placed_of :
    (query : Text) (token : TokenInfo) (chain : Option Text)
    → ((c : Text) × (place : Text) × (chain ≡ some c)
        × (address_on c token ≡ some place)
        × (normalize_token_address place ≡ normalize_token_address query))
    → placed_on query token chain ≡ true
unfolding placed_on is_placed_at
placed_of query token chain (c, place, on, at_place, same) =
    rw on (rw at_place ((text_eq_iff _ _).1 same))

-- The tests of the code, rule by rule.
unfoldable pub test : TokenInfo → Text → Option Text → Rule → Bool
unfolding placed_on has_part
test token query chain same_symbol = text_eq (lower token.symbol) query
test token query chain symbol_starts = starts_with query (lower token.symbol)
test token query chain symbol_has = includes query (lower token.symbol)
test token query chain name_starts = starts_with query (lower token.name)
test token query chain name_has = includes query (lower token.name)
test token query chain same_place = is_evm_address query && placed_on query token chain
test token query chain place_has =
    starts_with (codes "0x") query && ltb 4 (length query) && has_part query token.addresses

pub test_iff :
    (token : TokenInfo) (query : Text) (chain : Option Text) (rule : Rule)
    → (test token query chain rule ≡ true) ↔ Applies token query chain rule
unfolding test has_part
test_iff token query chain same_symbol = text_eq_iff (lower token.symbol) query
test_iff token query chain symbol_starts = starts_with_iff query (lower token.symbol)
test_iff token query chain symbol_has = includes_iff query (lower token.symbol)
test_iff token query chain name_starts = starts_with_iff query (lower token.name)
test_iff token query chain name_has = includes_iff query (lower token.name)
test_iff token query chain same_place =
    and_iff (is_evm_address query) _ (λ h. h, λ h. h)
      (placed_to query token chain, placed_of query token chain)
test_iff token query chain place_has =
    and_iff (starts_with (codes "0x") query && ltb 4 (length query)) _
      (and_iff (starts_with (codes "0x") query) _ (starts_with_iff (codes "0x") query)
        (λ h. ground arith, λ h. ground arith))
      (any_iff _ (λ place. includes_iff (lower query) (normalize_token_address place))
        (values token.addresses))
