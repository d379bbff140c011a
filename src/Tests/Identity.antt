-- ===== src/Tests/Identity.antt =====
-- Tests of the identities of both managers (wallet-sdk/src/identity and
-- wallet-sdk/src/wallet/AgentIdentityManager.ts).
use reth_monmouth.Common.{
  ◌≡◌, ◌↔◌, refl, true, false, none, some, [], ◌∷◌, ◌++◌, arith, repeat, inl, inr, List, is_some,
}
use mathlib.Core.Path.{subst}
use mathlib.Core.Option.{none-ne-some, some_inj}
use reth_monmouth.Common.Text.{Text, codes, lower}
use reth_monmouth.Guardrails.Policy.{trading}
use reth_monmouth.Core.Types.{ChainType, UniversalAddress}
use reth_monmouth.Core.Hex.{bytes_to_hex}
use reth_monmouth.Core.Base58.{base58_char, bytes_to_base58}
use reth_monmouth.Core.Address.{create_address}
use reth_monmouth.AgentWallet.Did.{base58_encode}
use reth_monmouth.AgentWallet.Identity
use reth_monmouth.AgentWallet.Identity.Documents
use reth_monmouth.AgentWallet.Identity.Verified
use reth_monmouth.Identity.Base58.{encode_base58, decode_base58}
use reth_monmouth.Identity.Base58.Agreed.{encode_base58-base58_encode}
use reth_monmouth.Identity.Manager
use reth_monmouth.Identity.Manager.{generate_did, hash_message, extract_address_from_did}
use reth_monmouth.Identity.Manager.Dids.{extract_address_from_did-generate_did}
use reth_monmouth.Identity.Manager.Accepted
use reth_monmouth.Identity.Manager.Accepted.Own.{verify_identity-stub_sign}

encoded : encode_base58 (0 ∷ 0 ∷ 1 ∷ 2 ∷ 3 ∷ []) ≡ codes "11Ldp"
unfolding encode_base58 base58_char
encoded = refl

-- Zeros alone get one more when they are written.
encoded_zeros : encode_base58 (0 ∷ 0 ∷ []) ≡ codes "111"
unfolding encode_base58 base58_char
encoded_zeros = refl

decoded : decode_base58 (codes "11Ldp") ≡ some (0 ∷ 0 ∷ 1 ∷ 2 ∷ 3 ∷ [])
unfolding decode_base58
decoded = refl

hashed : hash_message (codes "Hello") ≡ codes "00000000042628b2"
unfolding hash_message
hashed = refl

abbrev owner : Text
owner = codes "0xAb01"

owner_bytes : lower owner ≡ bytes_to_hex (0xab ∷ 0x01 ∷ [])
unfolding lower bytes_to_hex
owner_bytes = refl

abbrev document : Manager.IdentityDocument
document = record {
  id = generate_did owner;
  controller = owner;
  agent_type = trading;
  name = codes "Trader";
  capabilities = [];
  created = 3;
  updated = 3;
  metadata = none;
}

abbrev manager : Manager.AgentIdentityManager
manager = record {
  config = Manager.default_config;
  identity = some document;
  listeners = [];
  signs_typed_data = false;
  storage = none;
  delivered = [];
}

abbrev account : UniversalAddress
account = record {
  raw = repeat 20 7;
  display = codes "0x0707070707070707070707070707070707070707";
  chain_type = ChainType.evm;
}

abbrev empty_manager : Identity.AgentIdentityManager
empty_manager = record {
  chain_type = ChainType.evm;
  config = Identity.default_config;
  identity = none;
  listeners = 4 ∷ [];
  agent_type = trading;
  agent_name = codes "Trader";
  storage = some [];
  delivered = [];
}

account_made : create_address account.raw account.chain_type ≡ some account
unfolding create_address bytes_to_hex
account_made = refl

abbrev own_document : Identity.IdentityDocument
own_document = record {
  id = codes "did:key:z" ++ base58_encode (0xe7 ∷ 0x01 ∷ account.raw);
  controller = account;
  chain_type = ChainType.evm;
  agent_type = trading;
  name = codes "Trader";
  capabilities = [];
  created = 3;
  updated = 3;
  metadata = none;
}

abbrev own_manager : Identity.AgentIdentityManager
own_manager = record empty_manager { identity = some own_document }

named : Identity.generate_did account ≡ some own_document.id
unfolding Identity.generate_did bytes_to_base58 base58_encode base58_char
named = refl

own : Documents.OwnsIdentity own_manager
own d h = subst Documents.IsOwn (some_inj.0 h) (omega arith, account_made, refl, named)

signs :
    (Identity.sign_identity 5 (some (1 ∷ [])) own_manager).0
    ≡ some record { document = own_document; signature = 1 ∷ []; signed_at = 5 }
unfolding Identity.sign_identity
signs = refl

encode_base58-base58_encode_example :
    encode_base58 (0 ∷ 200 ∷ 7 ∷ []) ≡ base58_encode (0 ∷ 200 ∷ 7 ∷ [])
encode_base58-base58_encode_example =
    encode_base58-base58_encode (0 ∷ 200 ∷ 7 ∷ []) (inr (inl (omega arith)))

extract_address_from_did-generate_did_example :
    extract_address_from_did (generate_did owner) ≡ some (lower owner)
extract_address_from_did-generate_did_example =
    extract_address_from_did-generate_did owner (0xab ∷ 0x01 ∷ []) (omega arith) owner_bytes

verify_identity-stub_sign_example :
    (s : Manager.SignedIdentity) × ((Accepted.sign_identity 5 (λ d. d.name) none manager).0
      ≡ some s)
    × (s.document ≡ document)
    × ((Accepted.verify_identity 9 s manager).0.valid ≡ true)
verify_identity-stub_sign_example =
    verify_identity-stub_sign 5 9 (λ d. d.name) none document manager manager refl refl
      (refl, (0xab ∷ 0x01 ∷ [], omega arith, owner_bytes)) (omega arith)

abbrev identity_calls : List Documents.IdentityCall
identity_calls =
    Documents.IdentityCall.sets_capabilities 2 []
    ∷ Documents.IdentityCall.initializes 3 3 none account
    ∷ Documents.IdentityCall.adds_metadata 4 []
    ∷ []

run_calls-OwnsOnChain_example :
    (is_some (Documents.run_calls identity_calls empty_manager).identity ≡ true)
    × ((Documents.run_calls identity_calls empty_manager).chain_type ≡ ChainType.evm)
    × Documents.OwnsOnChain (Documents.run_calls identity_calls empty_manager)
run_calls-OwnsOnChain_example =
    Documents.run_calls-OwnsOnChain identity_calls empty_manager
      (tt, ((omega arith, account_made, refl), (tt, tt))) (λ d h. absurd (none-ne-some d h))

verify_identity-sign_identity_example :
    (Identity.verify_identity 9
      record { document = own_document; signature = 1 ∷ []; signed_at = 5 }
      empty_manager).0.valid
    ≡ true
verify_identity-sign_identity_example =
    Verified.verify_identity-sign_identity 5 9 (some (1 ∷ [])) own_manager empty_manager
      record { document = own_document; signature = 1 ∷ []; signed_at = 5 } own signs refl
      (omega arith)

verify_identity_iff_example :
    ((Identity.verify_identity 9
        record { document = own_document; signature = 1 ∷ []; signed_at = 5 }
        empty_manager).0.valid
      ≡ true)
    ↔ Verified.IsAcceptable 9 record { document = own_document; signature = 1 ∷ []; signed_at = 5 }
verify_identity_iff_example =
    Verified.verify_identity_iff 9
      record { document = own_document; signature = 1 ∷ []; signed_at = 5 } empty_manager
