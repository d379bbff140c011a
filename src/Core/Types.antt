-- ===== src/Core/Types.antt =====
-- wallet-sdk/src/core/types.ts: the types of all chains. An EVM address is 20 bytes and shown in
-- hexadecimal, a Solana one 32 bytes and shown in base58.
use reth_monmouth.Common.{ℕ, List}
use reth_monmouth.Common.Int.{ℤ}
use reth_monmouth.Common.Text.{Text}

pub data ChainType : Type 0 where
  evm svm : ChainType

pub record UniversalAddress : Type 0 where
  pub raw : List ℕ
  pub display : Text
  pub chain_type : ChainType

-- `UniversalAddress | 'native'`
pub data TokenAddress : Type 0 where
  native : TokenAddress
  contract : UniversalAddress → TokenAddress

pub record TokenId : Type 0 where
  pub chain_type : ChainType
  pub address : TokenAddress
  pub symbol : Text
  pub decimals : ℕ

pub record TokenAmount : Type 0 where
  pub token : TokenId
  pub raw : ℤ
  pub formatted : Text
