-- ===== src/AgentWallet/Identity.antt =====
-- wallet-sdk/src/wallet/AgentIdentityManager.ts: the identity of an agent on either chain. The adapter is
-- outside: the address that it is connected to, if any, and what it signs are arguments. A thrown error
-- is `none`. Storage keeps the document that the JSON text encodes, and metadata the JSON text of each
-- value; listeners do not call back.
pub mod Documents
pub mod Verified
use reth_monmouth.Common.{
  with_listener, without_listener, ℕ, ◌+◌, ◌*◌, Bool, true, false, not, ◌&&◌, Option, none, some,
  ◌>>=◌, List, [], ◌∷◌, ◌++◌, map, ltb, ◌==◌, if◌then◌else◌, or_else, is_some, is_empty, drop,
}
use mathlib.Core.Option
use reth_monmouth.Common.Text.{Text, codes, text_eq, same_folded, starts_with}
use reth_monmouth.Common.Assoc.{Assoc, lookup, insert, erase}
use reth_monmouth.Guardrails.Policy.{AgentType}
use reth_monmouth.Core.Types.{ChainType, UniversalAddress}
use reth_monmouth.Core.Base58.{bytes_to_base58, base58_to_bytes}
use reth_monmouth.Core.Address.{create_address, same_chain}
use reth_monmouth.Tokens.Types.{spread}
use reth_monmouth.AgentWallet.{chain_name}
use reth_monmouth.AgentWallet.Did.{did_prefix}

pub data AgentCapability : Type 0 where
  payments signing x402 escrow deploy admin : AgentCapability

pub record IdentityDocument : Type 0 where
  pub id : Text
  pub controller : UniversalAddress
  pub chain_type : ChainType
  pub agent_type : AgentType
  pub name : Text
  pub capabilities : List AgentCapability
  pub created : ℕ
  pub updated : ℕ
  pub metadata : Option (Assoc Text)

-- Of a signature only the bytes are read.
pub record SignedIdentity : Type 0 where
  pub document : IdentityDocument
  pub signature : List ℕ
  pub signed_at : ℕ

pub data VerificationError : Type 0 where
  invalid_did_format signature_expired could_not_parse_did : VerificationError
  controller_mismatch chain_type_mismatch invalid_signature : VerificationError

pub record VerificationResult : Type 0 where
  pub valid : Bool
  pub error : Option VerificationError
  pub identity : Option IdentityDocument
  pub verified_at : ℕ

pub data IdentityEvent : Type 0 where
  identity_created identity_updated : IdentityDocument → IdentityEvent
  identity_signed : Text → IdentityEvent
  identity_verified : Text → Bool → IdentityEvent

pub record IdentityManagerConfig : Type 0 where
  pub persist : Bool
  pub storage_prefix : Text
  pub default_capabilities : List AgentCapability

abbrev pub default_config : IdentityManagerConfig
default_config = record {
  persist = true;
  storage_prefix = codes "agent_identity_";
  default_capabilities = AgentCapability.payments ∷ AgentCapability.signing ∷ [];
}

abbrev pub Storage : Type 0
Storage = Option (Assoc IdentityDocument)

-- `chain_type` is the adapter's.
pub record AgentIdentityManager : Type 0 where
  pub chain_type : ChainType
  pub config : IdentityManagerConfig
  pub identity : Option IdentityDocument
  pub listeners : List ℕ
  pub agent_type : AgentType
  pub agent_name : Text
  pub storage : Storage
  pub delivered : List (ℕ × IdentityEvent)

unfoldable pub emit : IdentityEvent → AgentIdentityManager → AgentIdentityManager
emit event m = record m { delivered = m.delivered ++ map (λ l. (l, event)) m.listeners }

abbrev pub did_start : Text
did_start = codes "did:key:z"

unfoldable pub generate_did : UniversalAddress → Option Text
unfolding did_prefix
generate_did a = do
  encoded ← bytes_to_base58 (did_prefix a.chain_type ++ a.raw)
  some (did_start ++ encoded)

-- The chain whose prefix the bytes start with.
unfoldable pub multicodec_of : List ℕ → Option (ChainType × List ℕ)
multicodec_of [] = none
multicodec_of (a ∷ []) = none
multicodec_of (a ∷ b ∷ rest) =
    if (a == 0xe7) && (b == 0x01)
    then some (ChainType.evm, rest)
    else if (a == 0xed) && (b == 0x01)
    then some (ChainType.svm, rest)
    else none

-- What the bytes behind the prefix show as an address.
unfoldable pub address_of : ChainType × List ℕ → Option UniversalAddress
unfolding create_address
address_of (chain, raw) = create_address raw chain

parse_encoded : Text → Option UniversalAddress
unfolding multicodec_of address_of base58_to_bytes
parse_encoded encoded = do
  decoded ← base58_to_bytes encoded
  found ← multicodec_of decoded
  address_of found

-- The chain of the answer is the one of its address.
unfoldable pub parse_did : Text → Option UniversalAddress
unfolding starts_with parse_encoded
parse_did did = if starts_with did_start did then parse_encoded (drop 9 did) else none

identity_key : Text → Text → ChainType → Text
unfolding chain_name
identity_key prefix display chain = prefix ++ display ++ codes "_" ++ chain_name chain

unfoldable pub document_key : AgentIdentityManager → IdentityDocument → Text
unfolding identity_key
document_key m d = identity_key m.config.storage_prefix d.controller.display d.chain_type

-- `persistIdentity`, for the document that is the identity.
unfoldable pub persist_identity : IdentityDocument → AgentIdentityManager → AgentIdentityManager
unfolding document_key insert
persist_identity d m =
    if m.config.persist
    then record m { storage = Option.map (insert (document_key m d) d) m.storage }
    else m

-- The document becomes the identity, is stored and announced.
unfoldable pub adopt :
    IdentityEvent → IdentityDocument → AgentIdentityManager → AgentIdentityManager
unfolding persist_identity emit
adopt event d m = emit event (persist_identity d (record m { identity = some d }))

abbrev holds : UniversalAddress → Option IdentityDocument → Bool
holds a none = false
holds a (some d) = text_eq d.controller.display a.display

new_document :
    ℕ
    → ℕ
    → Option (List AgentCapability)
    → UniversalAddress
    → Text
    → AgentIdentityManager
    → IdentityDocument
new_document created updated capabilities a did m = record {
  id = did;
  controller = a;
  chain_type = m.chain_type;
  agent_type = m.agent_type;
  name = m.agent_name;
  capabilities = or_else capabilities m.config.default_capabilities;
  created = created;
  updated = updated;
  metadata = none;
}

create_identity :
    ℕ
    → ℕ
    → Option (List AgentCapability)
    → UniversalAddress
    → Option Text
    → AgentIdentityManager
    → Option IdentityDocument × AgentIdentityManager
unfolding new_document adopt
create_identity created updated capabilities a none m = (none, m)
create_identity created updated capabilities a (some did) m =
    let d = new_document created updated capabilities a did m in
    (some d, adopt (IdentityEvent.identity_created d) d m)

-- The address is the one that the adapter is connected to.
unfoldable pub initialize :
    ℕ
    → ℕ
    → Option (List AgentCapability)
    → Option UniversalAddress
    → AgentIdentityManager
    → Option IdentityDocument × AgentIdentityManager
unfolding create_identity generate_did text_eq
initialize created updated capabilities none m = (none, m)
initialize created updated capabilities (some a) m =
    if holds a m.identity
    then (m.identity, m)
    else create_identity created updated capabilities a (generate_did a) m

-- A change of the identity; the flag says whether there is one.
change :
    (IdentityDocument → IdentityDocument)
    → Option IdentityDocument
    → AgentIdentityManager
    → Bool × AgentIdentityManager
unfolding adopt
change f none m = (false, m)
change f (some d) m = (true, adopt (IdentityEvent.identity_updated (f d)) (f d) m)

unfoldable pub update_capabilities :
    ℕ → List AgentCapability → AgentIdentityManager → Bool × AgentIdentityManager
unfolding change
update_capabilities now capabilities m =
    change (λ d. record d { capabilities = capabilities; updated = now }) m.identity m

unfoldable pub update_metadata : ℕ → Assoc Text → AgentIdentityManager → Bool × AgentIdentityManager
unfolding change spread
update_metadata now metadata m =
    change
      (λ d. record d { metadata = some (spread (or_else d.metadata []) metadata); updated = now })
      m.identity m

-- The adapter's signature; `none` is its failure.
sign_document :
    ℕ
    → Option (List ℕ)
    → Option IdentityDocument
    → AgentIdentityManager
    → Option SignedIdentity × AgentIdentityManager
unfolding emit
sign_document now reply none m = (none, m)
sign_document now none (some d) m = (none, m)
sign_document now (some signature) (some d) m = (
  some record { document = d; signature = signature; signed_at = now },
  emit (IdentityEvent.identity_signed d.id) m,
)

unfoldable pub sign_identity :
    ℕ → Option (List ℕ) → AgentIdentityManager → Option SignedIdentity × AgentIdentityManager
unfolding sign_document
sign_identity now reply m = sign_document now reply m.identity m

pub record SignedMessage : Type 0 where
  pub message : Text
  pub signature : List ℕ
  pub did : Text

unfoldable pub sign_message : Text → Option (List ℕ) → AgentIdentityManager → Option SignedMessage
sign_message message reply m = do
  d ← m.identity
  signature ← reply
  some record { message = message; signature = signature; did = d.id }

-- 24 hours
abbrev pub max_age : ℕ
max_age = 24 * 60 * 60 * 1000

refused : ℕ → VerificationError → VerificationResult
refused now error = record { valid = false; error = some error; identity = none; verified_at = now }

-- The last check, which is announced.
judge_signature :
    ℕ → SignedIdentity → AgentIdentityManager → VerificationResult × AgentIdentityManager
unfolding refused emit
judge_signature now s m =
    if is_empty s.signature
    then (
      refused now VerificationError.invalid_signature,
      emit (IdentityEvent.identity_verified s.document.id false) m,
    )
    else (
      record { valid = true; error = none; identity = some s.document; verified_at = now },
      emit (IdentityEvent.identity_verified s.document.id true) m,
    )

judge_address :
    ℕ
    → SignedIdentity
    → Option UniversalAddress
    → AgentIdentityManager
    → VerificationResult × AgentIdentityManager
unfolding refused judge_signature same_folded same_chain
judge_address now s none m = (refused now VerificationError.could_not_parse_did, m)
judge_address now s (some a) m =
    if same_folded a.display s.document.controller.display
    then if same_chain a.chain_type s.document.chain_type
      then judge_signature now s m
      else (refused now VerificationError.chain_type_mismatch, m)
    else (refused now VerificationError.controller_mismatch, m)

-- `now - signedAt > maxAge` is about times that may lie ahead too.
unfoldable pub verify_identity :
    ℕ → SignedIdentity → AgentIdentityManager → VerificationResult × AgentIdentityManager
unfolding refused judge_address parse_did starts_with
verify_identity now s m =
    if starts_with did_start s.document.id
    then if ltb (s.signed_at + max_age) now
      then (refused now VerificationError.signature_expired, m)
      else judge_address now s (parse_did s.document.id) m
    else (refused now VerificationError.invalid_did_format, m)

restored : Option IdentityDocument → AgentIdentityManager → AgentIdentityManager
restored none m = m
restored (some d) m = record m { identity = some d }

stored_identity : Text → Storage → Option IdentityDocument
unfolding lookup
stored_identity key none = none
stored_identity key (some items) = lookup key items

-- `restoreIdentity`, which the constructor starts, for the address that the adapter is connected to.
unfoldable pub restore_identity :
    Option UniversalAddress → AgentIdentityManager → AgentIdentityManager
unfolding restored stored_identity identity_key
restore_identity none m = m
restore_identity (some a) m =
    let key = identity_key m.config.storage_prefix a.display m.chain_type in
    if m.config.persist then restored (stored_identity key m.storage) m else m

forget : Option IdentityDocument → AgentIdentityManager → AgentIdentityManager
unfolding document_key erase
forget none m = m
forget (some d) m = record m {
  identity = none;
  storage = Option.map (erase (document_key m d)) m.storage;
}

unfoldable pub clear_identity : AgentIdentityManager → AgentIdentityManager
unfolding forget
clear_identity m = forget m.identity m

-- The constructor, with the restored identity.
unfoldable pub create_identity_manager :
    ChainType
    → AgentType
    → Text
    → IdentityManagerConfig
    → Storage
    → Option UniversalAddress
    → AgentIdentityManager
unfolding restore_identity
create_identity_manager chain agent_type agent_name config storage connected =
    restore_identity connected record {
      chain_type = chain;
      config = config;
      identity = none;
      listeners = [];
      agent_type = agent_type;
      agent_name = agent_name;
      storage = storage;
      delivered = [];
    }

unfoldable on : ℕ → AgentIdentityManager → AgentIdentityManager
on listener m = record m { listeners = with_listener listener m.listeners }

-- The function that `on` returns.
unfoldable off : ℕ → AgentIdentityManager → AgentIdentityManager
off listener m = record m { listeners = without_listener listener m.listeners }
