-- ===== src/Tokens/Constants.antt =====
-- wallet-sdk/src/tokens/constants.ts: what the registry starts from. Chains are the texts of their ids.
use reth_monmouth.Common.{ℕ, ◌==◌, ◌*◌, true, Bool, some, none, List, [], ◌∷◌, ◌++◌, any, or_else}
use reth_monmouth.Common.Text.{Text, codes}
use reth_monmouth.Common.Assoc.{Assoc, lookup}
use reth_monmouth.Common.Decimal.{text_of_ℕ}
use reth_monmouth.Tokens.Types.{TokenInfo}

abbrev pub usdc : TokenInfo
usdc = record {
  symbol = codes "USDC";
  name = codes "USD Coin";
  decimals = 6;
  logo_uri = some (
      codes
        "https://raw.githubusercontent.com/trustwallet/assets/master/blockchains/ethereum/assets/0xA0b86991c6218b36c1d19D4a2e9Eb0cE3606eB48/logo.png");
  addresses =
      (codes "1", codes "0xA0b86991c6218b36c1d19D4a2e9Eb0cE3606eB48")
      ∷ (codes "10", codes "0x0b2C639c533813f4Aa9D7837CAf62653d097Ff85")
      ∷ (codes "137", codes "0x3c499c542cef5e3811e1192ce70d8cc03d5c3359")
      ∷ (codes "42161", codes "0xaf88d065e77c8cC2239327C5EDb3A432268e5831")
      ∷ (codes "8453", codes "0x833589fCD6eDb6E08f4c7C32D4f71b54bdA02913")
      ∷ (codes "43114", codes "0xB97EF9Ef8734C71904D8002F8b6Bc66Dd9c48a6E")
      ∷ (codes "7750", codes "0xA0b86991c6218b36c1d19D4a2e9Eb0cE3606eB48")
      ∷ (codes "11155111", codes "0x1c7D4B196Cb0C7B01d743Fbc6116a902379C7238")
      ∷ (codes "mainnet-beta", codes "EPjFWdd5AufqSSqeM2qN1xzybapC8G4wEGGkZwyTDt1v")
      ∷ [];
  verified = true;
  tags = some (codes "stablecoin" ∷ codes "defi" ∷ []);
  extensions = none;
}

abbrev pub usdt : TokenInfo
usdt = record {
  symbol = codes "USDT";
  name = codes "Tether USD";
  decimals = 6;
  logo_uri = some (
      codes
        "https://raw.githubusercontent.com/trustwallet/assets/master/blockchains/ethereum/assets/0xdAC17F958D2ee523a2206206994597C13D831ec7/logo.png");
  addresses =
      (codes "1", codes "0xdAC17F958D2ee523a2206206994597C13D831ec7")
      ∷ (codes "10", codes "0x94b008aA00579c1307B0EF2c499aD98a8ce58e58")
      ∷ (codes "137", codes "0xc2132D05D31c914a87C6611C10748AEb04B58e8F")
      ∷ (codes "42161", codes "0xFd086bC7CD5C481DCC9C85ebE478A1C0b69FCbb9")
      ∷ (codes "56", codes "0x55d398326f99059fF775485246999027B3197955")
      ∷ (codes "43114", codes "0x9702230A8Ea53601f5cD2dc00fDBc13d4dF4A8c7")
      ∷ (codes "mainnet-beta", codes "Es9vMFrzaCERmJfrF4H2FYD4KCoNkY11McCe8BenwNYB")
      ∷ [];
  verified = true;
  tags = some (codes "stablecoin" ∷ codes "defi" ∷ []);
  extensions = none;
}

abbrev pub dai : TokenInfo
dai = record {
  symbol = codes "DAI";
  name = codes "Dai Stablecoin";
  decimals = 18;
  logo_uri = some (
      codes
        "https://raw.githubusercontent.com/trustwallet/assets/master/blockchains/ethereum/assets/0x6B175474E89094C44Da98b954EescdeCB5BE3d09/logo.png");
  addresses =
      (codes "1", codes "0x6B175474E89094C44Da98b954EedfcDeCB5BE3d09")
      ∷ (codes "10", codes "0xDA10009cBd5D07dd0CeCc66161FC93D7c9000da1")
      ∷ (codes "137", codes "0x8f3Cf7ad23Cd3CaDbD9735AFf958023239c6A063")
      ∷ (codes "42161", codes "0xDA10009cBd5D07dd0CeCc66161FC93D7c9000da1")
      ∷ (codes "8453", codes "0x50c5725949A6F0c72E6C4a641F24049A917DB0Cb")
      ∷ (codes "43114", codes "0xd586E7F844cEa2F87f50152665BCbc2C279D8d70")
      ∷ [];
  verified = true;
  tags = some (codes "stablecoin" ∷ codes "defi" ∷ []);
  extensions = none;
}

abbrev pub weth : TokenInfo
weth = record {
  symbol = codes "WETH";
  name = codes "Wrapped Ether";
  decimals = 18;
  logo_uri = some (
      codes
        "https://raw.githubusercontent.com/trustwallet/assets/master/blockchains/ethereum/assets/0xC02aaA39b223FE8D0A0e5C4F27eAD9083C756Cc2/logo.png");
  addresses =
      (codes "1", codes "0xC02aaA39b223FE8D0A0e5C4F27eAD9083C756Cc2")
      ∷ (codes "10", codes "0x4200000000000000000000000000000000000006")
      ∷ (codes "137", codes "0x7ceB23fD6bC0adD59E62ac25578270cFf1b9f619")
      ∷ (codes "42161", codes "0x82aF49447D8a07e3bd95BD0d56f35241523fBab1")
      ∷ (codes "8453", codes "0x4200000000000000000000000000000000000006")
      ∷ (codes "43114", codes "0x49D5c2BdFfac6CE2BFdB6640F4F80f226bc10bAB")
      ∷ (codes "11155111", codes "0xfFf9976782d46CC05630D1f6eBAb18b2324d6B14")
      ∷ [];
  verified = true;
  tags = some (codes "defi" ∷ codes "wrapped" ∷ []);
  extensions = none;
}

abbrev pub wbtc : TokenInfo
wbtc = record {
  symbol = codes "WBTC";
  name = codes "Wrapped BTC";
  decimals = 8;
  logo_uri = some (
      codes
        "https://raw.githubusercontent.com/trustwallet/assets/master/blockchains/ethereum/assets/0x2260FAC5E5542a773Aa44fBCfeDf7C193bc2C599/logo.png");
  addresses =
      (codes "1", codes "0x2260FAC5E5542a773Aa44fBCfeDf7C193bc2C599")
      ∷ (codes "10", codes "0x68f180fcCe6836688e9084f035309E29Bf0A2095")
      ∷ (codes "137", codes "0x1BFD67037B42Cf73acF2047067bd4F2C47D9BfD6")
      ∷ (codes "42161", codes "0x2f2a2543B76A4166549F7aaB2e75Bef0aefC5B0f")
      ∷ (codes "43114", codes "0x50b7545627a5162F82A992c33b87aDc75187B218")
      ∷ [];
  verified = true;
  tags = some (codes "defi" ∷ codes "wrapped" ∷ []);
  extensions = none;
}

abbrev pub link : TokenInfo
link = record {
  symbol = codes "LINK";
  name = codes "Chainlink";
  decimals = 18;
  logo_uri = some (
      codes
        "https://raw.githubusercontent.com/trustwallet/assets/master/blockchains/ethereum/assets/0x514910771AF9Ca656af840dff83E8264EcF986CA/logo.png");
  addresses =
      (codes "1", codes "0x514910771AF9Ca656af840dff83E8264EcF986CA")
      ∷ (codes "10", codes "0x350a791Bfc2C21F9Ed5d10980Dad2e2638ffa7f6")
      ∷ (codes "137", codes "0xb0897686c545045aFc77CF20eC7A532E3120E0F1")
      ∷ (codes "42161", codes "0xf97f4df75117a78c1A5a0DBb814Af92458539FB4")
      ∷ (codes "8453", codes "0x88Fb150BDc53A65fe94Dea0c9BA0a6dAf8C6e196")
      ∷ (codes "43114", codes "0x5947BB275c521040051D82396192181b413227A3")
      ∷ [];
  verified = true;
  tags = some (codes "defi" ∷ codes "oracle" ∷ []);
  extensions = none;
}

abbrev pub uni : TokenInfo
uni = record {
  symbol = codes "UNI";
  name = codes "Uniswap";
  decimals = 18;
  logo_uri = some (
      codes
        "https://raw.githubusercontent.com/trustwallet/assets/master/blockchains/ethereum/assets/0x1f9840a85d5aF5bf1D1762F925BDADdC4201F984/logo.png");
  addresses =
      (codes "1", codes "0x1f9840a85d5aF5bf1D1762F925BDADdC4201F984")
      ∷ (codes "10", codes "0x6fd9d7AD17242c41f7131d257212c54A0e816691")
      ∷ (codes "137", codes "0xb33EaAd8d922B1083446DC23f610c2567fB5180f")
      ∷ (codes "42161", codes "0xFa7F8980b0f1E64A2062791cc3b0871572f1F7f0")
      ∷ (codes "8453", codes "0xc3De830EA07524a0761646a6a4e4be0e114a3C83")
      ∷ [];
  verified = true;
  tags = some (codes "defi" ∷ codes "governance" ∷ []);
  extensions = none;
}

abbrev pub sol : TokenInfo
sol = record {
  symbol = codes "SOL";
  name = codes "Solana";
  decimals = 9;
  logo_uri = some (
      codes
        "https://raw.githubusercontent.com/solana-labs/token-list/main/assets/mainnet/So11111111111111111111111111111111111111112/logo.png");
  addresses =
      (codes "mainnet-beta", codes "So11111111111111111111111111111111111111112")
      ∷ (codes "devnet", codes "So11111111111111111111111111111111111111112")
      ∷ (codes "testnet", codes "So11111111111111111111111111111111111111112")
      ∷ [];
  verified = true;
  tags = some (codes "native" ∷ []);
  extensions = none;
}

abbrev pub wsol : TokenInfo
wsol = record {
  symbol = codes "WSOL";
  name = codes "Wrapped SOL";
  decimals = 9;
  logo_uri = some (
      codes
        "https://raw.githubusercontent.com/solana-labs/token-list/main/assets/mainnet/So11111111111111111111111111111111111111112/logo.png");
  addresses = (codes "mainnet-beta", codes "So11111111111111111111111111111111111111112") ∷ [];
  verified = true;
  tags = some (codes "wrapped" ∷ []);
  extensions = none;
}

-- `Object.entries(COMMON_TOKENS)`: each key is the symbol of its token.
abbrev pub common_tokens : List TokenInfo
common_tokens = usdc ∷ usdt ∷ dai ∷ weth ∷ wbtc ∷ link ∷ uni ∷ sol ∷ wsol ∷ []

abbrev pub default_token_list_urls : List Text
default_token_list_urls =
    codes "https://tokens.uniswap.org" ∷ codes "https://tokens.coingecko.com/uniswap/all.json" ∷ []

abbrev pub default_rpc_urls : Assoc Text
default_rpc_urls =
    (codes "1", codes "https://eth.llamarpc.com")
    ∷ (codes "10", codes "https://mainnet.optimism.io")
    ∷ (codes "56", codes "https://bsc-dataseed.binance.org")
    ∷ (codes "137", codes "https://polygon-rpc.com")
    ∷ (codes "42161", codes "https://arb1.arbitrum.io/rpc")
    ∷ (codes "43114", codes "https://api.avax.network/ext/bc/C/rpc")
    ∷ (codes "8453", codes "https://mainnet.base.org")
    ∷ (codes "7750", codes "http://localhost:8545")
    ∷ (codes "11155111", codes "https://rpc.sepolia.org")
    ∷ []

-- One hour and one day, in milliseconds.
abbrev pub token_ttl_ms : ℕ
token_ttl_ms = 60 * 60 * 1000

abbrev pub list_ttl_ms : ℕ
list_ttl_ms = 24 * 60 * 60 * 1000

abbrev pub storage_prefix : Text
storage_prefix = codes "monmouth_tokens_"

abbrev pub max_cached_lists : ℕ
max_cached_lists = 10

-- No address is blocked yet, on any chain.
abbrev pub blocked_tokens : Assoc (List Text)
blocked_tokens = (codes "1", []) ∷ []

chain_names : Assoc Text
chain_names =
    (codes "1", codes "Ethereum")
    ∷ (codes "10", codes "Optimism")
    ∷ (codes "56", codes "BNB Chain")
    ∷ (codes "137", codes "Polygon")
    ∷ (codes "42161", codes "Arbitrum One")
    ∷ (codes "43114", codes "Avalanche")
    ∷ (codes "8453", codes "Base")
    ∷ (codes "7750", codes "Monmouth")
    ∷ (codes "11155111", codes "Sepolia")
    ∷ (codes "5", codes "Goerli")
    ∷ []

unfoldable pub get_chain_name : ℕ → Text
unfolding chain_names lookup text_of_ℕ
get_chain_name chain =
    or_else (lookup (text_of_ℕ chain) chain_names) (codes "Chain " ++ text_of_ℕ chain)

unfoldable pub is_testnet : ℕ → Bool
is_testnet chain = any (λ t. chain == t) (11155111 ∷ 5 ∷ 80001 ∷ 421614 ∷ 84532 ∷ [])
