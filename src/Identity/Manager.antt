-- ===== src/Identity/Manager.antt =====
-- wallet-sdk/src/identity/AgentIdentity.ts: `AgentIdentityManager`, which reads its MonmouthWallet and
-- never changes it, so the wallet's present state is an argument. What `signTypedData` answers is an
-- argument too; a thrown error is `none`. Storage keeps the document that the JSON text encodes, and
-- metadata the JSON text of each value; listeners do not call back.
pub mod Dids
pub mod Accepted
use reth_monmouth.Common.{
  with_listener, without_listener, ℕ, ◌+◌, ◌-◌, ◌*◌, ◌%◌, ◌^◌, Bool, true, false, not, ◌&&◌, Option,
  none, some, ◌>>=◌, List, [], ◌∷◌, ◌++◌, map, ltb, leb, ◌==◌, if◌then◌else◌, or_else, is_some,
  is_empty, drop, length, repeat,
}
use mathlib.Core.Option
use reth_monmouth.Common.Text.{Text, codes, text_eq, same_folded, starts_with, pad_start}
use reth_monmouth.Common.Assoc.{Assoc, lookup, insert, erase}
use reth_monmouth.Guardrails.Policy.{AgentType}
use reth_monmouth.Wallet.{MonmouthWallet}
use reth_monmouth.Core.Hex.{bytes_to_hex, bytes_of_pairs}
use reth_monmouth.Core.Base58.{hex_of}
use reth_monmouth.Tokens.Types.{spread}
use reth_monmouth.Identity.Base58.{encode_base58, decode_base58}

pub data AgentCapability : Type 0 where
  payments escrow x402 signing delegation trading research : AgentCapability

pub record IdentityDocument : Type 0 where
  pub id : Text
  pub controller : Text
  pub agent_type : AgentType
  pub name : Text
  pub capabilities : List AgentCapability
  pub created : ℕ
  pub updated : ℕ
  pub metadata : Option (Assoc Text)

pub record SignedIdentity : Type 0 where
  pub document : IdentityDocument
  pub signature : Text
  pub signed_at : ℕ

pub data VerificationError : Type 0 where
  invalid_did_format signature_expired controller_mismatch invalid_signature : VerificationError

pub record VerificationResult : Type 0 where
  pub valid : Bool
  pub identity : Option IdentityDocument
  pub error : Option VerificationError
  pub verified_at : ℕ

pub record AgentIdentityConfig : Type 0 where
  pub persist : Bool
  pub storage_prefix : Text
  pub default_capabilities : List AgentCapability

abbrev pub default_config : AgentIdentityConfig
default_config = record {
  persist = true;
  storage_prefix = codes "monmouth_identity_";
  default_capabilities = AgentCapability.payments ∷ AgentCapability.signing ∷ [];
}

pub data IdentityEvent : Type 0 where
  identity_created identity_updated : IdentityDocument → IdentityEvent
  identity_verified : Text → Bool → IdentityEvent
  identity_signed : Text → IdentityEvent

-- `signs_typed_data` says whether that function is set.
pub record AgentIdentityManager : Type 0 where
  pub config : AgentIdentityConfig
  pub identity : Option IdentityDocument
  pub listeners : List ℕ
  pub signs_typed_data : Bool
  pub storage : Option (Assoc IdentityDocument)
  pub delivered : List (ℕ × IdentityEvent)

unfoldable pub emit : IdentityEvent → AgentIdentityManager → AgentIdentityManager
emit event m = record m { delivered = m.delivered ++ map (λ l. (l, event)) m.listeners }

abbrev pub did_start : Text
did_start = codes "did:key:z"

-- The digits behind `0x`, two by two.
unfoldable pub generate_did : Text → Text
unfolding encode_base58 bytes_of_pairs
generate_did owner = did_start ++ encode_base58 (0xe7 ∷ 0x01 ∷ bytes_of_pairs (drop 2 owner))

unfoldable pub address_behind : List ℕ → Option Text
unfolding bytes_to_hex
address_behind [] = none
address_behind (a ∷ []) = none
address_behind (a ∷ b ∷ rest) =
    if (a == 0xe7) && (b == 0x01) then some (bytes_to_hex rest) else none

extract_encoded : Text → Option Text
unfolding address_behind decode_base58
extract_encoded encoded = do decoded ← decode_base58 encoded; address_behind decoded

unfoldable pub extract_address_from_did : Text → Option Text
unfolding extract_encoded starts_with
extract_address_from_did did =
    if starts_with did_start did then extract_encoded (drop 9 did) else none

-- The loop of `hashMessage`: a signed 32-bit number, kept as its residue.
hash_loop : ℕ → Text → ℕ
hash_loop hash [] = hash
hash_loop hash (c ∷ s) = hash_loop ((hash * 31 + c) % 2 ^ 32) s

-- `Math.abs`
magnitude : ℕ → ℕ
magnitude hash = if ltb hash (2 ^ 31) then hash else 2 ^ 32 - hash

unfoldable pub hash_message : Text → Text
unfolding hash_loop magnitude hex_of pad_start
hash_message message = pad_start 16 b'0' (hex_of (magnitude (hash_loop 0 message)))

unfoldable pub stub_sign : Text → Text
unfolding hash_message
stub_sign payload =
    let hash = hash_message payload in
    codes "0x" ++ hash ++ repeat (64 - length hash) b'0' ++ codes "1b"

document_key : AgentIdentityManager → Text → Text
document_key m owner = m.config.storage_prefix ++ owner

unfoldable pub persist_identity : IdentityDocument → AgentIdentityManager → AgentIdentityManager
unfolding document_key insert
persist_identity d m =
    if m.config.persist
    then record m { storage = Option.map (insert (document_key m d.controller) d) m.storage }
    else m

unfoldable pub adopt :
    IdentityEvent → IdentityDocument → AgentIdentityManager → AgentIdentityManager
unfolding persist_identity emit
adopt event d m = emit event (persist_identity d (record m { identity = some d }))

abbrev is_owned_by : Text → Option IdentityDocument → Bool
is_owned_by owner none = false
is_owned_by owner (some d) = text_eq d.controller owner

new_document :
    ℕ
    → ℕ
    → Option (List AgentCapability)
    → Text
    → MonmouthWallet
    → AgentIdentityManager
    → IdentityDocument
unfolding generate_did
new_document created updated capabilities owner w m = record {
  id = generate_did owner;
  controller = owner;
  agent_type = w.identity.agent_type;
  name = w.identity.name;
  capabilities = or_else capabilities m.config.default_capabilities;
  created = created;
  updated = updated;
  metadata = none;
}

initialize_for :
    ℕ
    → ℕ
    → Option (List AgentCapability)
    → MonmouthWallet
    → Option Text
    → AgentIdentityManager
    → Option IdentityDocument × AgentIdentityManager
unfolding new_document adopt text_eq
initialize_for created updated capabilities w none m = (none, m)
initialize_for created updated capabilities w (some owner) m =
    let d = new_document created updated capabilities owner w m in
    if is_owned_by owner m.identity
    then (m.identity, m)
    else (some d, adopt (IdentityEvent.identity_created d) d m)

unfoldable pub initialize :
    ℕ
    → ℕ
    → Option (List AgentCapability)
    → MonmouthWallet
    → AgentIdentityManager
    → Option IdentityDocument × AgentIdentityManager
unfolding initialize_for
initialize created updated capabilities w m =
    initialize_for created updated capabilities w w.connected_address m

change :
    (IdentityDocument → IdentityDocument)
    → Option IdentityDocument
    → AgentIdentityManager
    → Bool × AgentIdentityManager
unfolding adopt
change f none m = (false, m)
change f (some d) m = (true, adopt (IdentityEvent.identity_updated (f d)) (f d) m)

unfoldable pub update_capabilities :
    ℕ → List AgentCapability → AgentIdentityManager → Bool × AgentIdentityManager
unfolding change
update_capabilities now capabilities m =
    change (λ d. record d { capabilities = capabilities; updated = now }) m.identity m

unfoldable pub update_metadata : ℕ → Assoc Text → AgentIdentityManager → Bool × AgentIdentityManager
unfolding change spread
update_metadata now metadata m =
    change
      (λ d. record d { metadata = some (spread (or_else d.metadata []) metadata); updated = now })
      m.identity m

restored : Option IdentityDocument → AgentIdentityManager → AgentIdentityManager
restored none m = m
restored (some d) m = record m { identity = some d }

stored_identity : Text → Option (Assoc IdentityDocument) → Option IdentityDocument
unfolding lookup
stored_identity key none = none
stored_identity key (some items) = lookup key items

restore_for : Option Text → AgentIdentityManager → AgentIdentityManager
unfolding restored stored_identity document_key
restore_for none m = m
restore_for (some owner) m =
    if m.config.persist then restored (stored_identity (document_key m owner) m.storage) m else m

unfoldable pub restore_identity : MonmouthWallet → AgentIdentityManager → AgentIdentityManager
unfolding restore_for
restore_identity w m = restore_for w.connected_address m

-- The constructor.
unfoldable pub create_agent_identity :
    AgentIdentityConfig
    → Bool
    → Option (Assoc IdentityDocument)
    → MonmouthWallet
    → AgentIdentityManager
unfolding restore_identity
create_agent_identity config signs storage w = restore_identity w record {
  config = config;
  identity = none;
  listeners = [];
  signs_typed_data = signs;
  storage = storage;
  delivered = [];
}

forget : Option IdentityDocument → AgentIdentityManager → AgentIdentityManager
unfolding document_key erase
forget none m = m
forget (some d) m = record m {
  identity = none;
  storage = Option.map (erase (document_key m d.controller)) m.storage;
}

unfoldable pub clear_identity : AgentIdentityManager → AgentIdentityManager
unfolding forget
clear_identity m = forget m.identity m

unfoldable on : ℕ → AgentIdentityManager → AgentIdentityManager
on listener m = record m { listeners = with_listener listener m.listeners }

-- The function that `on` returns.
unfoldable off : ℕ → AgentIdentityManager → AgentIdentityManager
off listener m = record m { listeners = without_listener listener m.listeners }
