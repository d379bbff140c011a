-- ===== src/Tokens/Registry/Search/Complete.antt =====
-- What a search of wallet-sdk/src/tokens/TokenRegistry.ts does not miss.
use reth_monmouth.Common.{
  ℕ, ◌≤◌, ◌≡◌, refl, sym, ◌⊎◌, inl, inr, true, false, Option, none, some, List, [], ◌∷◌, length,
  take, All, Some, arith, Bool-cases, Option-cases,
}
use mathlib.Core.Path.{subst}
use reth_monmouth.Common.Text.{Text}
use reth_monmouth.Memory.Sort.{sort, sort-Some, sort-IsOrdered, taken_or_crowded_out}
use reth_monmouth.Tokens.Types.{TokenInfo, TokenSearchResult, MatchedField}
use reth_monmouth.Tokens.Registry.Search.{
  TokenSearchOptions, match_token, add_hit, find_hits, is_eligible, scores_first,
}
use reth_monmouth.Tokens.Registry.Search.Rules.{rules, Applies, IsFirst, IsEligible}
use reth_monmouth.Tokens.Registry.Search.Decided.{
  match_token-some, match_token-none, is_eligible_iff,
}

-- The search is not about the token, or no rule applies to it.
abbrev pub IsOut : Text → TokenSearchOptions → TokenInfo → Type 0
IsOut query options token =
    ¬ IsEligible options token ⊎ All (λ rule. ¬ Applies token query options.chain_id rule) rules

-- The result is the token's, with its score.
abbrev pub IsResultOf : Text → TokenSearchOptions → TokenInfo → TokenSearchResult → Type 0
IsResultOf query options token hit =
    (token ≡ hit.token) × IsFirst token query options.chain_id rules hit.score hit.matched_field

-- The results are as many as the limit allows, and none scores less than the token.
abbrev pub IsCrowdedOut :
    Text → TokenSearchOptions → ℕ → List TokenSearchResult → TokenInfo → Type 0
IsCrowdedOut query options limit results token =
    (s : ℕ) × (f : MatchedField) × IsFirst token query options.chain_id rules s f
    × (length results ≡ limit)
    × All (λ hit. s ≤ hit.score) results

abbrev pub IsCovered : Text → TokenSearchOptions → ℕ → List TokenSearchResult → TokenInfo → Type 0
IsCovered query options limit results token =
    IsOut query options token
    ⊎ Some (IsResultOf query options token) results
    ⊎ IsCrowdedOut query options limit results token

some_member :
    {P : TokenSearchResult → Type 0} (xs : List TokenSearchResult)
    → Some P xs
    → (x : TokenSearchResult) × P x × Some (λ y. y ≡ x) xs
some_member [] h = absurd h
some_member (x ∷ xs) (inl h) = (x, h, inl refl)
some_member (x ∷ xs) (inr h) = let (y, p, m) = some_member xs h in (y, p, inr m)

Some-of_member :
    (P : TokenSearchResult → Type 0) (x : TokenSearchResult) (xs : List TokenSearchResult)
    → P x
    → Some (λ y. y ≡ x) xs
    → Some P xs
Some-of_member P x [] p m = absurd m
Some-of_member P x (y ∷ ys) p (inl e) = inl (rw e p)
Some-of_member P x (y ∷ ys) p (inr m) = inr (Some-of_member P x ys p m)

scores_at_least :
    (s : ℕ) (hit : TokenSearchResult) (results : List TokenSearchResult)
    → hit.score ≡ s
    → All (λ y. scores_first y hit ≡ true) results
    → All (λ y. s ≤ y.score) results
scores_at_least s hit [] e h = tt
scores_at_least s hit (y ∷ ys) e (h, hs) = (ground arith, scores_at_least s hit ys e hs)

module _ (query : Text) (options : TokenSearchOptions) where
  abbrev IsFound : List TokenSearchResult → TokenInfo → Type 0
  IsFound hits token = IsOut query options token ⊎ Some (IsResultOf query options token) hits

  add_hit-IsFound :
      (found : Option TokenSearchResult) (hits : List TokenSearchResult) (tokens : List TokenInfo)
      → All (IsFound hits) tokens
      → All (IsFound (add_hit found hits)) tokens
  unfolding add_hit
  add_hit-IsFound none hits tokens h = h
  add_hit-IsFound (some hit) hits [] h = tt
  add_hit-IsFound (some hit) hits (t ∷ ts) (inl out, hs) =
      (inl out, add_hit-IsFound (some hit) hits ts hs)
  add_hit-IsFound (some hit) hits (t ∷ ts) (inr there, hs) =
      (inr (inr there), add_hit-IsFound (some hit) hits ts hs)

  added-IsFound :
      (token : TokenInfo) (hits : List TokenSearchResult)
      → IsFound (add_hit (match_token token query options.chain_id) hits) token
  unfolding add_hit
  added-IsFound token hits = elim (Option-cases (match_token token query options.chain_id)) [
    | inl missing ↦ inl (inr (match_token-none token query options.chain_id missing))
    | inr (hit, e) ↦ rw e (inr (inl (match_token-some token query options.chain_id hit e)))
  ]

  find_hits-eligible :
      (token : TokenInfo) (tokens : List TokenInfo)
      → is_eligible options token ≡ true
      → find_hits query options (token ∷ tokens)
        ≡ add_hit (match_token token query options.chain_id) (find_hits query options tokens)
  unfolding find_hits
  find_hits-eligible token tokens h = rw h refl

  find_hits-refused :
      (token : TokenInfo) (tokens : List TokenInfo)
      → is_eligible options token ≡ false
      → find_hits query options (token ∷ tokens) ≡ find_hits query options tokens
  unfolding find_hits
  find_hits-refused token tokens h = rw h refl

  pub find_hits-IsFound :
      (tokens : List TokenInfo) → All (IsFound (find_hits query options tokens)) tokens
  find_hits-IsFound [] = tt
  find_hits-IsFound (token ∷ tokens) = elim (Bool-cases (is_eligible options token)) [
    | inl eligible ↦ subst all_found (sym (find_hits-eligible token tokens eligible)) (
      added-IsFound token (find_hits query options tokens),
      add_hit-IsFound (match_token token query options.chain_id) (find_hits query options tokens)
          tokens (find_hits-IsFound tokens),
    )
    | inr refused ↦
        subst all_found (sym (find_hits-refused token tokens refused))
          (inl (inl (λ h. cc ((is_eligible_iff options token).1 h))), find_hits-IsFound tokens)
  ]
    where
      all_found : List TokenSearchResult → Type 0
      all_found hits = All (IsFound hits) (token ∷ tokens)

  IsFound-IsCovered :
      (limit : ℕ) (hits : List TokenSearchResult) (token : TokenInfo)
      → IsFound hits token
      → IsCovered query options limit (take limit (sort scores_first hits)) token
  IsFound-IsCovered limit hits token (inl out) = inl out
  IsFound-IsCovered limit hits token (inr found) =
      let sorted = sort scores_first hits in
      let (hit, own, member) = some_member sorted (sort-Some scores_first _ hits found) in
      let ordered =
        sort-IsOrdered scores_first (λ a b h. ground arith) (λ a b c h k. ground arith) hits in
      elim (taken_or_crowded_out scores_first limit sorted hit ordered member) [
        | inl taken ↦ inr (inl (Some-of_member _ hit (take limit sorted) own taken))
        | inr crowd ↦ inr (
            inr (
              hit.score,
              hit.matched_field,
              own.1,
              crowd.0,
              scores_at_least hit.score hit (take limit sorted) refl crowd.1,
            ))
      ]

  -- Every token that is searched is covered by the results.
  pub All-IsCovered :
      (limit : ℕ) (hits : List TokenSearchResult) (tokens : List TokenInfo)
      → All (IsFound hits) tokens
      → All (IsCovered query options limit (take limit (sort scores_first hits))) tokens
  All-IsCovered limit hits [] h = tt
  All-IsCovered limit hits (t ∷ ts) (h, hs) =
      (IsFound-IsCovered limit hits t h, All-IsCovered limit hits ts hs)
