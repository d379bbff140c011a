-- ===== src/Payments/Types.antt =====
-- wallet-sdk/src/payments/types.ts: the types of a payment, and the tokens that are known.
use reth_monmouth.Common.{
  ℕ, Bool, ◌||◌, Option, none, some, [], ◌∷◌, ◌++◌, ◌==◌, if◌then◌else◌, repeat,
}
use reth_monmouth.Common.Int.{ℤ}
use reth_monmouth.Common.Text.{Text, codes, text_eq, starts_with}
use reth_monmouth.Common.Assoc.{Assoc, lookup}
use reth_monmouth.Guardrails.Policy.{Address, Hex}

abbrev pub PaymentToken : Type 0
PaymentToken = Text

-- `expiry` comes from `parseInt`: `none` is `NaN`.
pub record PaymentRequired : Type 0 where
  pub recipient : Address
  pub amount : ℤ
  pub token : PaymentToken
  pub chain_id : ℕ
  pub nonce : Text
  pub expiry : Option ℤ
  pub description : Option Text

pub record PaymentPayload : Type 0 where
  pub required : PaymentRequired
  pub signature : Hex
  pub payer : Address
  pub created_at : ℕ

pub record PaymentReceipt : Type 0 where
  pub payment_id : Text
  pub amount : ℤ
  pub recipient : Address
  pub token : PaymentToken
  pub timestamp : ℕ

-- The codes that the client throws; the union in the source has more.
pub data X402ErrorCode : Type 0 where
  invalid_payment_required payment_expired guardrail_rejected : X402ErrorCode
  signature_failed payment_rejected unsupported_token timeout : X402ErrorCode

-- `KNOWN_TOKENS[chainId]`
unfoldable pub known_tokens : ℕ → Option (Assoc Address)
known_tokens chain_id =
    if chain_id == 7750
    then some (
        (codes "USDC", codes "0xA0b86991c6218b36c1d19D4a2e9Eb0cE3606eB48")
        ∷ (codes "USDT", codes "0xdAC17F958D2ee523a2206206994597C13D831ec7")
        ∷ (codes "DAI", codes "0x6B175474E89094C44Da98b954EescdeCB5BE3d09")
        ∷ [])
    else if chain_id == 1
    then some (
        (codes "USDC", codes "0xA0b86991c6218b36c1d19D4a2e9Eb0cE3606eB48")
        ∷ (codes "USDT", codes "0xdAC17F958D2ee523a2206206994597C13D831ec7")
        ∷ (codes "DAI", codes "0x6B175474E89094C44Da98b954EedfcDeCB5BE3d09")
        ∷ [])
    else if chain_id == 11_155_111
    then some ((codes "USDC", codes "0x1c7D4B196Cb0C7B01d743Fbc6116a902379C7238") ∷ [])
    else none

-- `none` is the thrown `UNSUPPORTED_TOKEN`.
unfoldable pub get_token_address : PaymentToken → ℕ → Option Address
unfolding known_tokens
get_token_address token chain_id =
    if starts_with (codes "0x") token
    then some token
    else elim (known_tokens chain_id) [ none ↦ none | some tokens ↦ lookup token tokens ]

unfoldable pub is_native_token : PaymentToken → Bool
is_native_token token = text_eq token (codes "ETH") || text_eq token (codes "0x" ++ repeat 40 b'0')
