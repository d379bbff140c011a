-- ===== src/Tokens/Registry/Safety/Levels.antt =====
-- What `checkTokenSafety` of wallet-sdk/src/tokens/TokenRegistry.ts answers.
use reth_monmouth.Common.{
  ℕ, ◌≡◌, refl, ◌⊎◌, true, false, none, some, List, [], ◌∷◌, Bool-cases, inl, inr,
}
use reth_monmouth.Common.Text.{Text, codes, upper}
use reth_monmouth.Common.Assoc.{Assoc, lookup, lookup-insert_self}
use reth_monmouth.Tokens.Types.{TokenInfo, SafetyLevel, normalize_token_address}
use reth_monmouth.Tokens.Registry.{
  TokenRegistry, get_address_key, enter_custom, save_custom_tokens, update_items, emit,
}
use reth_monmouth.Tokens.Registry.Lookup.{custom_at}
use reth_monmouth.Tokens.Registry.Custom.{customized, add_custom_token}
use reth_monmouth.Tokens.Registry.Custom.Laws.{HasKey, lookup-add_custom_token}
use reth_monmouth.Tokens.Registry.Safety.{
  is_blocked, verdict, judge_custom, judge_indexed, judge_common, check_token_safety,
}

module _ (blocked : Assoc (List Text)) (common : List TokenInfo) (now : ℕ)
    (place chain : Text) where
  -- The address is on the block list, or a common token has it.
  abbrev pub IsSettled : Type 0
  IsSettled =
      (is_blocked blocked common (normalize_token_address place) chain ≡ true)
      ⊎ ((token : TokenInfo) × (custom_at (normalize_token_address place) chain common
            ≡ some token))

  -- What the registry holds has no say on such an address: lists and custom tokens cannot change the
  -- answer.
  pub check_token_safety_settled :
      (r s : TokenRegistry)
      → IsSettled
      → check_token_safety blocked common now place chain r
        ≡ check_token_safety blocked common now place chain s
  unfolding check_token_safety judge_common
  check_token_safety_settled r s (inl bad) = rw bad refl
  check_token_safety_settled r s (inr (token, e)) = rw e refl

  lookup-custom_tokens :
      (token : TokenInfo) (r : TokenRegistry)
      → lookup (upper token.symbol) (add_custom_token token r).custom_tokens
        ≡ some (customized token)
  unfolding add_custom_token save_custom_tokens update_items emit enter_custom customized
  lookup-custom_tokens token r = elim (Bool-cases r.config.enable_cache) [
    | inl on ↦ rw on (lookup-insert_self (upper token.symbol) _ r.custom_tokens)
    | inr off ↦ rw off (lookup-insert_self (upper token.symbol) _ r.custom_tokens)
  ]

  judge_indexed-custom :
      (token : TokenInfo) (r : TokenRegistry)
      → lookup (upper token.symbol) r.custom_tokens ≡ some (customized token)
      → judge_indexed blocked common now (some (customized token)) r
        ≡ judge_custom blocked common now (some (customized token))
  unfolding judge_indexed customized
  judge_indexed-custom token r h = rw h refl

  -- A token that a user has added is known at its addresses, with a warning, and no more than that,
  -- whatever it says of itself, if the address is not on the block list and no common token has it.
  pub check_token_safety-add_custom_token :
      (token : TokenInfo) (r : TokenRegistry)
      → HasKey (get_address_key place chain) token.addresses
      → is_blocked blocked common (normalize_token_address place) chain ≡ false
      → custom_at (normalize_token_address place) chain common ≡ none
      → check_token_safety blocked common now place chain (add_custom_token token r) ≡ record {
        level = SafetyLevel.known;
        is_safe = true;
        warnings = 1 ∷ [];
        info = some (customized token);
        sources = codes "custom" ∷ [];
        checked_at = now;
      }
  unfolding check_token_safety judge_common judge_custom verdict
  check_token_safety-add_custom_token token r h good uncommon =
      let found = lookup-add_custom_token place chain token r h in
      rw (good, uncommon, found)
        (judge_indexed-custom token (add_custom_token token r) (lookup-custom_tokens token r))
