-- ===== src/Tokens/Registry/Search/Decided.antt =====
-- The tests of `searchTokens` and `matchToken` decide the search rules.
use reth_monmouth.Common.{
  ℕ, ◌≡◌, ◌⊎◌, ◌↔◌, refl, ap, sym, ◌∙◌, inl, inr, Bool, true, false, ◌&&◌, ◌||◌, Option, none, some,
  List, [], ◌∷◌, if◌then◌else◌, or_else, any, any_iff, All, Some, is_some, Bool-cases, Option-cases,
}
use mathlib.Core.Option.{some_inj, none-ne-some}
use reth_monmouth.Common.Text.{Text, text_eq, text_eq_iff}
use reth_monmouth.Tokens.Types.{TokenInfo, TokenSearchResult, MatchedField, address_on}
use reth_monmouth.Tokens.Registry.Search.{
  TokenSearchOptions, score_of, hit_of, match_token, is_on, has_tag, is_eligible,
}
use reth_monmouth.Tokens.Registry.Search.Rules.{
  Rule, rules, score, field, Applies, IsFirst, IsEligible, test, test_iff, and_iff,
}

-- How the tests of a list of rules come out: no rule applies, or the first one that does.
module _ (token : TokenInfo) (query : Text) (chain : Option Text) where
  first_of : List Rule → Option (ℕ × MatchedField)
  first_of [] = none
  first_of (rule ∷ later) =
      let rest = first_of later in
      if test token query chain rule then some (score rule, field rule) else rest

  refuses : (rule : Rule) → test token query chain rule ≡ false → ¬ Applies token query chain rule
  refuses rule h a = cc ((test_iff token query chain rule).1 a)

  first_of-none :
      (list : List Rule)
      → first_of list ≡ none
      → All (λ rule. ¬ Applies token query chain rule) list
  unfolding first_of
  first_of-none [] h = tt
  first_of-none (rule ∷ later) h = elim (Bool-cases (test token query chain rule)) [
    | inl yes' ↦ cc (rw yes' at h)
    | inr no' ↦ (refuses rule no', first_of-none later (rw no' at h))
  ]

  first_of-some :
      (list : List Rule) (s : ℕ) (f : MatchedField)
      → first_of list ≡ some (s, f)
      → IsFirst token query chain list s f
  unfolding first_of
  first_of-some [] s f h = cc
  first_of-some (rule ∷ later) s f h = elim (Bool-cases (test token query chain rule)) [
    | inl yes' ↦
        let e = some_inj.0 (rw yes' at h) in
        inl ((test_iff token query chain rule).0 yes', ap (λ x. x.0) e, ap (λ x. x.1) e)
    | inr no' ↦ inr (refuses rule no', first_of-some later s f (rw no' at h))
  ]

  score_of-first_of : score_of token query chain ≡ first_of rules
  unfolding score_of first_of test
  score_of-first_of = refl

  -- A match has the token, and the score and the field of the first rule that applies.
  pub match_token-some :
      (hit : TokenSearchResult)
      → match_token token query chain ≡ some hit
      → (token ≡ hit.token) × IsFirst token query chain rules hit.score hit.matched_field
  unfolding match_token hit_of
  match_token-some hit h = elim (Option-cases (score_of token query chain)) [
    | inl missing ↦ cc (rw missing at h)
    | inr ((s, f), e) ↦
        let same = some_inj.0 (rw e at h) in
        (
          ap (λ x. x.token) same,
          rw (← ap (λ x. x.score) same, ← ap (λ x. x.matched_field) same)
              (first_of-some rules s f (sym score_of-first_of ∙ e)),
        )
  ]

  pub match_token-none :
      match_token token query chain ≡ none → All (λ rule. ¬ Applies token query chain rule) rules
  unfolding match_token hit_of
  match_token-none h = elim (Option-cases (score_of token query chain)) [
    | inl missing ↦ first_of-none rules (sym score_of-first_of ∙ missing)
    | inr (x, e) ↦ cc (rw e at h)
  ]

is_on_iff :
    (o : Option Text) (token : TokenInfo)
    → (is_on o token ≡ true)
      ↔ ((c : Text) → o ≡ some c → (place : Text) × (address_on c token ≡ some place))
unfolding is_on
is_on_iff none token = (λ e c h. absurd (none-ne-some c h), λ h. refl)
is_on_iff (some c) token = (to, back)
  where
    to :
        is_some (address_on c token) ≡ true
        → (d : Text) → some c ≡ some d
        → (place : Text) × (address_on d token ≡ some place)
    to e d same = elim (Option-cases (address_on c token)) [
      | inl missing ↦ cc (rw missing at e)
      | inr (place, there) ↦ (place, rw (← some_inj.0 same) there)
    ]

    back :
        ((d : Text) → some c ≡ some d → (place : Text) × (address_on d token ≡ some place))
        → is_some (address_on c token) ≡ true
    back h = let (place, e) = h c refl in rw e refl

verified_iff :
    (o : Option Bool) (token : TokenInfo)
    → (or_else o true || token.verified ≡ true) ↔ (o ≡ some false → token.verified ≡ true)
verified_iff none token = (λ e h. absurd (none-ne-some false h), λ h. refl)
verified_iff (some true) token = (λ e h. cc (some_inj.0 h), λ h. refl)
verified_iff (some false) token = (λ e h. e, λ h. h refl)

has_tag_iff :
    (tags : List Text) (token : TokenInfo)
    → (has_tag tags token ≡ true)
      ↔ ((tags ≡ []) ⊎ Some (λ tag. Some (λ t. t ≡ tag) (or_else token.tags [])) tags)
unfolding has_tag
has_tag_iff [] token = (λ e. inl refl, λ h. refl)
has_tag_iff (t ∷ tags) token = (λ e. inr (listed.0 e), back)
  where
    listed :
        (any (λ tag. any (text_eq tag) (or_else token.tags [])) (t ∷ tags) ≡ true)
        ↔ Some (λ tag. Some (λ u. u ≡ tag) (or_else token.tags [])) (t ∷ tags)
    listed =
        any_iff _
          (λ tag.
            any_iff _
              (λ u. (λ e. sym ((text_eq_iff tag u).0 e), λ e. (text_eq_iff tag u).1 (sym e)))
              (or_else token.tags []))
          (t ∷ tags)

    back :
        ((t ∷ tags ≡ []) ⊎ Some (λ tag. Some (λ u. u ≡ tag) (or_else token.tags [])) (t ∷ tags))
        → any (λ tag. any (text_eq tag) (or_else token.tags [])) (t ∷ tags) ≡ true
    back (inl h) = cc
    back (inr h) = listed.1 h

pub is_eligible_iff :
    (options : TokenSearchOptions) (token : TokenInfo)
    → (is_eligible options token ≡ true) ↔ IsEligible options token
unfolding is_eligible
is_eligible_iff options token =
    let (to, back) =
      and_iff
        (is_on options.chain_id token
          && (or_else options.include_unverified true || token.verified))
        _
        (and_iff (is_on options.chain_id token) _ (is_on_iff options.chain_id token)
          (verified_iff options.include_unverified token))
        (has_tag_iff (or_else options.tags []) token) in
    (
      λ e.
          let ((on, sure), tags) = to e in record { on_chain = on; verified = sure; tagged = tags },
      λ h. back ((h.on_chain, h.verified), h.tagged),
    )
