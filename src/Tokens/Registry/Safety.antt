-- ===== src/Tokens/Registry/Safety.antt =====
-- `checkTokenSafety` of wallet-sdk/src/tokens/TokenRegistry.ts.
pub mod Levels
use reth_monmouth.Common.{
  ℕ, Bool, true, false, ◌&&◌, Option, none, some, List, [], ◌∷◌, if◌then◌else◌, or_else, any,
  is_some,
}
use reth_monmouth.Common.Text.{Text, codes, upper, text_eq}
use reth_monmouth.Common.Assoc.{Assoc, lookup}
use reth_monmouth.Tokens.Types.{
  TokenInfo, TokenSafetyResult, SafetyLevel, normalize_token_address, address_on,
}
use reth_monmouth.Tokens.Constants.{blocked_tokens, common_tokens}
use reth_monmouth.Tokens.Registry.{TokenRegistry, get_address_key}
use reth_monmouth.Tokens.Registry.Lookup.{custom_at}

-- The blocked addresses and the common tokens are constants of the program; the theorems hold for any.
module _ (blocked : Assoc (List Text)) (common : List TokenInfo) where
  unfoldable pub is_blocked : Text → Text → Bool
  unfolding lookup text_eq
  is_blocked place chain = any (text_eq place) (or_else (lookup chain blocked) [])

  verdict : SafetyLevel → Bool → List ℕ → Option TokenInfo → List Text → ℕ → TokenSafetyResult
  verdict level safe warnings info sources now = record {
    level = level;
    is_safe = safe;
    warnings = warnings;
    info = info;
    sources = sources;
    checked_at = now;
  }

  -- The rest of the checks, for the custom token that has the symbol of the indexed one.
  judge_custom : ℕ → Option TokenInfo → TokenSafetyResult
  unfolding verdict
  judge_custom now (some custom) =
      verdict SafetyLevel.known true (1 ∷ []) (some custom) (codes "custom" ∷ []) now
  judge_custom now none = verdict SafetyLevel.unknown false (2 ∷ 3 ∷ []) none [] now

  symbol_of : Option TokenInfo → Text
  symbol_of none = []
  symbol_of (some token) = token.symbol

  unfoldable pub judge_indexed : ℕ → Option TokenInfo → TokenRegistry → TokenSafetyResult
  unfolding verdict judge_custom symbol_of upper lookup
  judge_indexed now indexed r =
      if is_verified indexed
      then verdict SafetyLevel.trusted true [] indexed (codes "token_list" ∷ []) now
      else judge_custom now (lookup (upper (symbol_of indexed)) r.custom_tokens)
    where
      is_verified : Option TokenInfo → Bool
      is_verified none = false
      is_verified (some token) = token.verified

  judge_common : ℕ → Option TokenInfo → Option TokenInfo → TokenRegistry → TokenSafetyResult
  unfolding verdict judge_indexed
  judge_common now (some token) indexed r =
      verdict SafetyLevel.verified true [] (some token) (codes "common_tokens" ∷ []) now
  judge_common now none indexed r = judge_indexed now indexed r

  unfoldable pub check_token_safety : ℕ → Text → Text → TokenRegistry → TokenSafetyResult
  unfolding is_blocked judge_common custom_at normalize_token_address get_address_key lookup
  check_token_safety now place chain r =
      let normalized = normalize_token_address place in
      if is_blocked normalized chain
      then verdict SafetyLevel.blocked false (0 ∷ []) none (codes "blocklist" ∷ []) now
      else judge_common now (custom_at normalized chain common)
          (lookup (get_address_key normalized chain) r.tokens_by_address) r
