-- ===== src/AgentWallet/Did.antt =====
-- `getDID` of wallet-sdk/src/wallet/AgentWallet.ts, with its own base58 encoder; the adapter's address
-- is an argument.
use reth_monmouth.Common.{
  ℕ, zero, suc, ◌<◌, ◌≡◌, refl, sym, ap, ◌∙◌, some, List, [], ◌∷◌, ◌++◌, map, arith, ◌==◌,
  if◌then◌else◌, Bool-cases, repeat, All, inl, inr,
}
use mathlib.Core.Option.{some_inj}
use reth_monmouth.Common.Text.{Text, codes}
use reth_monmouth.Common.Radix.{digits, value}
use reth_monmouth.Core.Types.{ChainType}
use reth_monmouth.Core.Hex.{IsByte}
use reth_monmouth.Core.Base58.{base58_char, count_leading, bytes_to_base58, base58_to_bytes}
use reth_monmouth.Core.Base58.RoundTrip.{bytes_to_base58-shown, base58_to_bytes-bytes_to_base58}

-- A `1` before the text for each zero in front of the bytes.
unfoldable pub add_ones : List ℕ → Text → Text
add_ones [] str = str
add_ones (byte ∷ bytes) str =
    let more = add_ones bytes (b'1' ∷ str) in if byte == 0 then more else str

unfoldable pub base58_encode : List ℕ → Text
unfolding add_ones value digits
base58_encode bytes = add_ones bytes (map base58_char (digits 58 (value 256 0 bytes) []))

-- The multicodec prefix of the key's kind.
unfoldable pub did_prefix : ChainType → List ℕ
did_prefix ChainType.evm = 0xe7 ∷ 0x01 ∷ []
did_prefix ChainType.svm = 0xed ∷ 0x01 ∷ []

unfoldable pub get_did : ChainType → List ℕ → Text
unfolding base58_encode did_prefix
get_did chain raw = codes "did:key:z" ++ base58_encode (did_prefix chain ++ raw)

repeat-behind : (n c : ℕ) (s : Text) → repeat n c ++ c ∷ s ≡ c ∷ repeat n c ++ s
repeat-behind zero c s = refl
repeat-behind (suc n) c s = ap (λ t. c ∷ t) (repeat-behind n c s)

pub add_ones_lem :
    (bytes : List ℕ) (str : Text) → add_ones bytes str ≡ repeat (count_leading 0 bytes) b'1' ++ str
unfolding add_ones count_leading
add_ones_lem [] str = refl
add_ones_lem (byte ∷ bytes) str = elim (Bool-cases (byte == 0)) [
  | inl blank ↦
      rw blank (add_ones_lem bytes (b'1' ∷ str) ∙ repeat-behind (count_leading 0 bytes) b'1' str)
  | inr other ↦ rw other refl
]

-- The wallet's encoder and the one of the shared helpers give one text for bytes of which there are
-- some.
pub bytes_to_base58-base58_encode :
    (b : ℕ) (bytes : List ℕ)
    → All IsByte (b ∷ bytes)
    → bytes_to_base58 (b ∷ bytes) ≡ some (base58_encode (b ∷ bytes))
unfolding base58_encode
bytes_to_base58-base58_encode b bytes h =
    bytes_to_base58-shown b bytes h
    ∙ ap some
        (sym (add_ones_lem (b ∷ bytes) (map base58_char (digits 58 (value 256 0 (b ∷ bytes)) []))))

-- What the shared decoder reads from the wallet's encoder.
base58_to_bytes-base58_encode :
    (b : ℕ) (bytes : List ℕ)
    → All IsByte (b ∷ bytes)
    → 0 < b
    → base58_to_bytes (base58_encode (b ∷ bytes)) ≡ some (b ∷ bytes)
base58_to_bytes-base58_encode b bytes h k =
    rw (bytes_to_base58-base58_encode b bytes h) at
      (base58_to_bytes-bytes_to_base58 (b ∷ bytes) h (inl k))

-- The bytes behind the fixed text of an identifier.
pub base58_to_bytes-get_did :
    (chain : ChainType) (raw : List ℕ)
    → All IsByte raw
    → (text : Text) × (get_did chain raw ≡ codes "did:key:z" ++ text)
      × (base58_to_bytes text ≡ some (did_prefix chain ++ raw))
unfolding get_did did_prefix
base58_to_bytes-get_did ChainType.evm raw h = (
  base58_encode (0xe7 ∷ 0x01 ∷ raw),
  refl,
  base58_to_bytes-base58_encode 0xe7 (0x01 ∷ raw) (omega arith, (omega arith, h)) (omega arith),
)
base58_to_bytes-get_did ChainType.svm raw h = (
  base58_encode (0xed ∷ 0x01 ∷ raw),
  refl,
  base58_to_bytes-base58_encode 0xed (0x01 ∷ raw) (omega arith, (omega arith, h)) (omega arith),
)

same_prefixed :
    (chain other : ChainType) (raw bytes : List ℕ)
    → did_prefix chain ++ raw ≡ did_prefix other ++ bytes
    → (chain ≡ other) × (raw ≡ bytes)
unfolding did_prefix
same_prefixed ChainType.evm ChainType.evm raw bytes h = (refl, cc)
same_prefixed ChainType.evm ChainType.svm raw bytes h = absurd (ground arith)
same_prefixed ChainType.svm ChainType.evm raw bytes h = absurd (ground arith)
same_prefixed ChainType.svm ChainType.svm raw bytes h = (refl, cc)

-- Wallets with one identifier are of one chain and have the same address bytes.
pub get_did_inj :
    (chain other : ChainType) (raw bytes : List ℕ)
    → All IsByte raw
    → All IsByte bytes
    → get_did chain raw ≡ get_did other bytes
    → (chain ≡ other) × (raw ≡ bytes)
get_did_inj chain other raw bytes h k same =
    let (s, shown, back) = base58_to_bytes-get_did chain raw h in
    let (t, shown_too, back_too) = base58_to_bytes-get_did other bytes k in
    let equal : codes "did:key:z" ++ s ≡ codes "did:key:z" ++ t = sym shown ∙ same ∙ shown_too in
    let texts : s ≡ t = cc equal in
    same_prefixed chain other raw bytes
      (some_inj.0 (sym back ∙ ap base58_to_bytes texts ∙ back_too))
