-- ===== src/Tokens/Registry/Lists/Growth.antt =====
-- What loading lists keeps (wallet-sdk/src/tokens/TokenRegistry.ts).
use reth_monmouth.Common.{
  ◌≡◌, refl, ◌∙◌, true, false, Option, none, some, List, [], ◌∷◌, arith, Bool-cases, inl, inr, All,
}
use reth_monmouth.Common.Text.{Text, upper, text_eq, text_eq-true}
use reth_monmouth.Common.Assoc.{lookup, insert, lookup-insert, lookup-insert_self}
use reth_monmouth.Tokens.Types.{
  TokenInfo, TokenList, TokenListToken, merge_token_info, token_list_token_to_info,
}
use reth_monmouth.Tokens.Registry.{TokenRegistry}
use reth_monmouth.Tokens.Registry.Lists.{
  merged_with, add_list_token, add_list_tokens, process_token_list,
}

-- The symbol finds a verified token.
abbrev pub IsVerified : Text → TokenRegistry → Type 0
IsVerified symbol r = (t : TokenInfo) × (lookup symbol r.tokens ≡ some t) × (t.verified ≡ true)

merged_with-verified :
    (found : Option TokenInfo) (listed : TokenListToken)
    → (merged_with found (token_list_token_to_info listed)).verified ≡ true
unfolding merged_with merge_token_info token_list_token_to_info
merged_with-verified none listed = refl
merged_with-verified (some t) listed = ground arith

add_list_token-IsVerified_self :
    (listed : TokenListToken) (r : TokenRegistry)
    → IsVerified (upper listed.symbol) (add_list_token listed r)
unfolding add_list_token token_list_token_to_info
add_list_token-IsVerified_self listed r =
    let found = lookup (upper listed.symbol) r.tokens in
    (
      merged_with found (token_list_token_to_info listed),
      lookup-insert_self (upper listed.symbol) _ r.tokens,
      merged_with-verified found listed,
    )

lookup-add_list_token :
    (symbol : Text) (listed : TokenListToken) (r : TokenRegistry)
    → text_eq symbol (upper listed.symbol) ≡ false
    → lookup symbol (add_list_token listed r).tokens ≡ lookup symbol r.tokens
unfolding add_list_token token_list_token_to_info
lookup-add_list_token symbol listed r other =
    lookup-insert symbol (upper listed.symbol) _ r.tokens ∙ rw other refl

add_list_token-IsVerified :
    (symbol : Text) (listed : TokenListToken) (r : TokenRegistry)
    → IsVerified symbol r
    → IsVerified symbol (add_list_token listed r)
add_list_token-IsVerified symbol listed r (t, found, verified) =
    elim (Bool-cases (text_eq symbol (upper listed.symbol))) [
      | inl same ↦
          rw (text_eq-true symbol (upper listed.symbol) same)
            (add_list_token-IsVerified_self listed r)
      | inr other ↦ (t, lookup-add_list_token symbol listed r other ∙ found, verified)
    ]

add_list_tokens-IsVerified :
    (symbol : Text) (list : List TokenListToken) (r : TokenRegistry)
    → IsVerified symbol r
    → IsVerified symbol (add_list_tokens list r)
unfolding add_list_tokens
add_list_tokens-IsVerified symbol [] r h = h
add_list_tokens-IsVerified symbol (listed ∷ list) r h =
    add_list_tokens-IsVerified symbol list (add_list_token listed r)
      (add_list_token-IsVerified symbol listed r h)

add_list_tokens-All :
    (list : List TokenListToken) (r : TokenRegistry)
    → All (λ listed. IsVerified (upper listed.symbol) (add_list_tokens list r)) list
unfolding add_list_tokens
add_list_tokens-All [] r = tt
add_list_tokens-All (listed ∷ list) r = (
  add_list_tokens-IsVerified (upper listed.symbol) list (add_list_token listed r)
      (add_list_token-IsVerified_self listed r),
  add_list_tokens-All list (add_list_token listed r),
)

-- After a list is processed each symbol of it finds a verified token, and so does each symbol that
-- found one before.
pub process_token_list-IsVerified :
    (list : TokenList) (url symbol : Text) (r : TokenRegistry)
    → All (λ listed. IsVerified (upper listed.symbol) (process_token_list list url r)) list.tokens
      × (IsVerified symbol r → IsVerified symbol (process_token_list list url r))
unfolding process_token_list
process_token_list-IsVerified list url symbol r =
    let r' = record r { loaded_lists = insert url list r.loaded_lists } in
    (add_list_tokens-All list.tokens r', λ h. add_list_tokens-IsVerified symbol list.tokens r' h)
