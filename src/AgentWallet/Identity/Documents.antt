-- ===== src/AgentWallet/Identity/Documents.antt =====
-- The identifiers and documents of wallet-sdk/src/wallet/AgentIdentityManager.ts.
use reth_monmouth.Common.{
  ℕ, ◌<◌, ◌≡◌, refl, sym, ◌∙◌, Bool, true, false, ◌||◌, Option, none, some, List, [], ◌∷◌, ◌++◌,
  arith, Option-cases, Bool-cases, inl, inr, All, Some, is_some, any,
}
use mathlib.Core.Path.{subst}
use mathlib.Core.Option.{some_inj, none-ne-some}
use reth_monmouth.Common.Text.{Text, starts_with}
use reth_monmouth.Common.Assoc.{Assoc}
use reth_monmouth.Core.Types.{ChainType, UniversalAddress}
use reth_monmouth.Core.Hex.{IsByte}
use reth_monmouth.Core.Base58.{bytes_to_base58, base58_to_bytes}
use reth_monmouth.Core.Base58.RoundTrip.{base58_to_bytes-bytes_to_base58}
use reth_monmouth.Core.Address.{create_address}
use reth_monmouth.AgentWallet.Did.{did_prefix}
use reth_monmouth.AgentWallet.Identity.{
  AgentCapability, IdentityDocument, IdentityEvent, AgentIdentityManager, generate_did,
  multicodec_of, address_of, parse_encoded, parse_did, did_start, emit, adopt, persist_identity,
  holds, new_document, create_identity, initialize, change, update_capabilities, update_metadata,
}

multicodec_of-did_prefix :
    (chain : ChainType) (raw : List ℕ) → multicodec_of (did_prefix chain ++ raw) ≡ some (chain, raw)
unfolding multicodec_of did_prefix
multicodec_of-did_prefix ChainType.evm raw = refl
multicodec_of-did_prefix ChainType.svm raw = refl

AreBytes-did_prefix :
    (chain : ChainType) (raw : List ℕ)
    → All IsByte raw
    → All IsByte (did_prefix chain ++ raw) × Some (λ b. 0 < b) (did_prefix chain ++ raw)
unfolding did_prefix
AreBytes-did_prefix ChainType.evm raw h = ((omega arith, (omega arith, h)), inl (omega arith))
AreBytes-did_prefix ChainType.svm raw h = ((omega arith, (omega arith, h)), inl (omega arith))

starts_with-append : (p s : Text) → starts_with p (p ++ s) ≡ true
unfolding starts_with
starts_with-append [] s = refl
starts_with-append (c ∷ p) s = ground (arith, starts_with-append p s)

-- The text behind the start of an identifier is the bytes in base58.
parse_encoded-base58 :
    (chain : ChainType) (raw : List ℕ) (encoded : Text)
    → base58_to_bytes encoded ≡ some (did_prefix chain ++ raw)
    → parse_encoded encoded ≡ create_address raw chain
unfolding parse_encoded address_of
parse_encoded-base58 chain raw encoded h = rw h (rw (multicodec_of-did_prefix chain raw) refl)

parse_did-start : (encoded : Text) → parse_did (did_start ++ encoded) ≡ parse_encoded encoded
unfolding parse_did starts_with
parse_did-start encoded = refl

-- An address whose bytes are bytes has an identifier, and the identifier is parsed as what the bytes
-- make on the chain.
pub parse_did-generate_did :
    (a : UniversalAddress)
    → All IsByte a.raw
    → (did : Text) × (generate_did a ≡ some did)
      × (starts_with did_start did ≡ true)
      × (parse_did did ≡ create_address a.raw a.chain_type)
unfolding generate_did
parse_did-generate_did a h =
    let bytes = did_prefix a.chain_type ++ a.raw in
    let (all_bytes, nonzero) = AreBytes-did_prefix a.chain_type a.raw h in
    let back = base58_to_bytes-bytes_to_base58 bytes all_bytes nonzero in
    elim (Option-cases (bytes_to_base58 bytes)) [
      | inl missing ↦ absurd (none-ne-some bytes (rw missing at back))
      | inr (encoded, e) ↦
          let read : base58_to_bytes encoded ≡ some bytes = rw e at back in
          (
            did_start ++ encoded,
            rw e refl,
            starts_with-append did_start encoded,
            parse_did-start encoded ∙ parse_encoded-base58 a.chain_type a.raw encoded read,
          )
    ]

-- A document that is about an account: the controller is the account's address on the document's
-- chain, and the identifier is the controller's.
abbrev pub IsOwn : IdentityDocument → Type 0
IsOwn d =
    All IsByte d.controller.raw
    × (create_address d.controller.raw d.controller.chain_type ≡ some d.controller)
    × (d.controller.chain_type ≡ d.chain_type)
    × (generate_did d.controller ≡ some d.id)

abbrev pub OwnsIdentity : AgentIdentityManager → Type 0
OwnsIdentity m = (d : IdentityDocument) → m.identity ≡ some d → IsOwn d

-- The same for an account of the chain.
abbrev pub IsOwnOn : ChainType → IdentityDocument → Type 0
IsOwnOn chain d = (d.chain_type ≡ chain) × IsOwn d

abbrev pub OwnsOnChain : AgentIdentityManager → Type 0
OwnsOnChain m = (d : IdentityDocument) → m.identity ≡ some d → IsOwnOn m.chain_type d

-- What an adapter of the chain is taken to answer: an address that its own bytes make.
abbrev pub IsAddressOn : ChainType → UniversalAddress → Type 0
IsAddressOn chain a =
    All IsByte a.raw × (create_address a.raw a.chain_type ≡ some a) × (a.chain_type ≡ chain)

-- The identity after an adoption is the document.
identity-adopt :
    (event : IdentityEvent) (d : IdentityDocument) (m : AgentIdentityManager)
    → (adopt event d m).identity ≡ some d
unfolding adopt persist_identity emit
identity-adopt event d m = elim (Bool-cases m.config.persist) [
  | inl on ↦ rw on refl
  | inr off ↦ rw off refl
]

chain_type-adopt :
    (event : IdentityEvent) (d : IdentityDocument) (m : AgentIdentityManager)
    → (adopt event d m).chain_type ≡ m.chain_type
unfolding adopt persist_identity emit
chain_type-adopt event d m = elim (Bool-cases m.config.persist) [
  | inl on ↦ rw on refl
  | inr off ↦ rw off refl
]

-- How a call leaves a manager: its identity, if any, is about an account of the chain, it has one exactly
-- if the call makes one or it had one, and the chain is the same.
record Keeps (made : Bool) (m m' : AgentIdentityManager) : Type 0 where
  owns : OwnsOnChain m'
  there : is_some m'.identity ≡ made || is_some m.identity
  chain : m'.chain_type ≡ m.chain_type

adopt-Keeps :
    (made : Bool) (event : IdentityEvent) (d : IdentityDocument) (m : AgentIdentityManager)
    → IsOwnOn m.chain_type d
    → made || is_some m.identity ≡ true
    → Keeps made m (adopt event d m)
adopt-Keeps made event d m h have = record {
  owns = λ e same.
      rw (chain_type-adopt event d m)
        (subst (IsOwnOn m.chain_type) (some_inj.0 (sym (identity-adopt event d m) ∙ same)) h);
  there = rw (identity-adopt event d m) (sym have);
  chain = chain_type-adopt event d m;
}

create_identity-Keeps :
    (created updated : ℕ) (capabilities : Option (List AgentCapability)) (a : UniversalAddress)
    (m : AgentIdentityManager)
    → IsAddressOn m.chain_type a
    → Keeps true m (create_identity created updated capabilities a (generate_did a) m).1
unfolding create_identity new_document
create_identity-Keeps created updated capabilities a m (bytes, own, chain) =
    let (did, e, start, parsed) = parse_did-generate_did a bytes in
    let d = new_document created updated capabilities a did m in
    rw e
      (adopt-Keeps true (IdentityEvent.identity_created d) d m (refl, (bytes, own, chain, e)) refl)

holds-is_some :
    (a : UniversalAddress) (o : Option IdentityDocument) → holds a o ≡ true → is_some o ≡ true
holds-is_some a none h = cc
holds-is_some a (some d) h = refl

initialize-Keeps :
    (created updated : ℕ) (capabilities : Option (List AgentCapability)) (a : UniversalAddress)
    (m : AgentIdentityManager)
    → IsAddressOn m.chain_type a
    → OwnsOnChain m
    → Keeps true m (initialize created updated capabilities (some a) m).1
unfolding initialize
initialize-Keeps created updated capabilities a m h k = elim (Bool-cases (holds a m.identity)) [
  | inl kept ↦ rw kept record { owns = k; there = holds-is_some a m.identity kept; chain = refl }
  | inr other ↦ rw other (create_identity-Keeps created updated capabilities a m h)
]

change-Keeps :
    (f : IdentityDocument → IdentityDocument) (m : AgentIdentityManager)
    (found : Option IdentityDocument)
    → m.identity ≡ found
    → ((d : IdentityDocument) → IsOwnOn m.chain_type d → IsOwnOn m.chain_type (f d))
    → OwnsOnChain m
    → Keeps false m (change f found m).1
unfolding change
change-Keeps f m none e keeps k = record { owns = k; there = refl; chain = refl }
change-Keeps f m (some d) e keeps k =
    adopt-Keeps false (IdentityEvent.identity_updated (f d)) (f d) m (keeps d (k d e)) (rw e refl)

-- The calls that change the identity, other than restoring and clearing it.
pub data IdentityCall : Type 0 where
  initializes :
      (created updated : ℕ) → Option (List AgentCapability) → UniversalAddress → IdentityCall
  sets_capabilities : (now : ℕ) → List AgentCapability → IdentityCall
  adds_metadata : (now : ℕ) → Assoc Text → IdentityCall

unfoldable pub run_call : IdentityCall → AgentIdentityManager → AgentIdentityManager
unfolding initialize update_capabilities update_metadata
run_call (IdentityCall.initializes created updated capabilities a) m =
    (initialize created updated capabilities (some a) m).1
run_call (IdentityCall.sets_capabilities now capabilities) m =
    (update_capabilities now capabilities m).1
run_call (IdentityCall.adds_metadata now metadata) m = (update_metadata now metadata m).1

unfoldable pub run_calls : List IdentityCall → AgentIdentityManager → AgentIdentityManager
unfolding run_call
run_calls [] m = m
run_calls (call ∷ calls) m = run_calls calls (run_call call m)

abbrev pub initializing : IdentityCall → Bool
initializing (IdentityCall.initializes created updated capabilities a) = true
initializing _ = false

-- The adapter that a call asks answers with an address on the chain.
abbrev pub IsSound : ChainType → IdentityCall → Type 0
IsSound chain (IdentityCall.initializes created updated capabilities a) = IsAddressOn chain a
IsSound chain (IdentityCall.sets_capabilities now capabilities) = Unit
IsSound chain (IdentityCall.adds_metadata now metadata) = Unit

run_call-Keeps :
    (call : IdentityCall) (m : AgentIdentityManager)
    → IsSound m.chain_type call
    → OwnsOnChain m
    → Keeps (initializing call) m (run_call call m)
unfolding run_call update_capabilities update_metadata
run_call-Keeps (IdentityCall.initializes created updated capabilities a) m h k =
    initialize-Keeps created updated capabilities a m h k
run_call-Keeps (IdentityCall.sets_capabilities now capabilities) m h k =
    change-Keeps _ m m.identity refl (λ d own. own) k
run_call-Keeps (IdentityCall.adds_metadata now metadata) m h k =
    change-Keeps _ m m.identity refl (λ d own. own) k

-- After any sequence of initializations and updates the manager has an identity exactly if it had one
-- or was initialized, and the identity is about an account of the manager's chain, if the one before was
-- and the adapter answers with such accounts.
pub run_calls-OwnsOnChain :
    (calls : List IdentityCall) (m : AgentIdentityManager)
    → All (IsSound m.chain_type) calls
    → OwnsOnChain m
    → (is_some (run_calls calls m).identity ≡ any initializing calls || is_some m.identity)
      × ((run_calls calls m).chain_type ≡ m.chain_type)
      × OwnsOnChain (run_calls calls m)
unfolding run_calls
run_calls-OwnsOnChain [] m h k = (refl, refl, k)
run_calls-OwnsOnChain (call ∷ calls) m (sound, later) k =
    let one = run_call-Keeps call m sound k in
    let (there, chain, owns) =
      run_calls-OwnsOnChain calls (run_call call m) (rw one.chain later) one.owns in
    (ground (arith, there, one.there), chain ∙ one.chain, owns)
