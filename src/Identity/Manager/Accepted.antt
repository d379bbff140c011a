-- ===== src/Identity/Manager/Accepted.antt =====
-- Signing and verifying identities (wallet-sdk/src/identity/AgentIdentity.ts). The JSON text of a
-- document, which the stub signature hashes, is a parameter.
pub mod Own
use reth_monmouth.Common.{
  ℕ, ◌+◌, ◌*◌, ◌≤◌, ◌≡◌, ◌↔◌, refl, sym, ap, ◌∙◌, Bool, true, false, not, ◌&&◌, Option, none, some,
  ◌>>=◌, List, [], ◌∷◌, ◌++◌, arith, ltb, if◌then◌else◌, is_some, is_empty, length,
}
use mathlib.Core.Path.{subst}
use mathlib.Core.Option.{some_inj, none-ne-some}
use reth_monmouth.Common.Text.{Text, codes, lower, same_folded, same_folded_iff, starts_with}
use reth_monmouth.Identity.Manager.{
  IdentityDocument, SignedIdentity, VerificationError, VerificationResult, IdentityEvent,
  AgentIdentityManager, emit, extract_address_from_did, hash_message, stub_sign,
}

unfoldable pub create_signature :
    (IdentityDocument → Text) → Option Text → IdentityDocument → AgentIdentityManager → Option Text
unfolding stub_sign
create_signature json reply d m = if m.signs_typed_data then reply else some (stub_sign (json d))

sign_with :
    ℕ
    → Option Text
    → IdentityDocument
    → AgentIdentityManager
    → Option SignedIdentity × AgentIdentityManager
unfolding emit
sign_with now none d m = (none, m)
sign_with now (some signature) d m = (
  some record { document = d; signature = signature; signed_at = now },
  emit (IdentityEvent.identity_signed d.id) m,
)

sign_found :
    ℕ
    → (IdentityDocument → Text)
    → Option Text
    → Option IdentityDocument
    → AgentIdentityManager
    → Option SignedIdentity × AgentIdentityManager
unfolding sign_with create_signature
sign_found now json reply none m = (none, m)
sign_found now json reply (some d) m = sign_with now (create_signature json reply d m) d m

unfoldable pub sign_identity :
    ℕ
    → (IdentityDocument → Text)
    → Option Text
    → AgentIdentityManager
    → Option SignedIdentity × AgentIdentityManager
unfolding sign_found
sign_identity now json reply m = sign_found now json reply m.identity m

pub record SignedMessage : Type 0 where
  pub message : Text
  pub signature : Text
  pub did : Text

unfoldable pub sign_message : Text → AgentIdentityManager → Option SignedMessage
unfolding stub_sign hash_message
sign_message message m = do
  d ← m.identity
  some record { message = message; signature = stub_sign (hash_message message); did = d.id }

unfoldable pub verify_signature : Text → Bool
unfolding starts_with
verify_signature signature = starts_with (codes "0x") signature && ltb 10 (length signature)

-- The result, with the reason where the identifier is refused.
unfoldable pub verify_message : Text → Text → Text → Bool × Option VerificationError
unfolding extract_address_from_did hash_message
verify_message message signature did =
    if is_empty_address (extract_address_from_did did)
    then (false, some VerificationError.invalid_did_format)
    else (ltb 10 (length signature) && ltb 0 (length (hash_message message)), none)
  where
    is_empty_address : Option Text → Bool
    is_empty_address none = true
    is_empty_address (some owner) = is_empty owner

-- 24 hours
abbrev pub max_age : ℕ
max_age = 24 * 60 * 60 * 1000

refused : ℕ → VerificationError → VerificationResult
refused now error = record { valid = false; identity = none; error = some error; verified_at = now }

judge_signature :
    ℕ → SignedIdentity → AgentIdentityManager → VerificationResult × AgentIdentityManager
unfolding refused emit verify_signature
judge_signature now s m =
    if verify_signature s.signature
    then (
      record { valid = true; identity = some s.document; error = none; verified_at = now },
      emit (IdentityEvent.identity_verified s.document.id true) m,
    )
    else (
      refused now VerificationError.invalid_signature,
      emit (IdentityEvent.identity_verified s.document.id false) m,
    )

-- `!extracted || extracted.toLowerCase() !== controller.toLowerCase()`
controls : Text → Option Text → Bool
unfolding same_folded
controls owner none = false
controls owner (some extracted) = not (is_empty extracted) && same_folded extracted owner

-- The start is `did:key:` here, and `did:key:z` when the address is extracted.
unfoldable pub verify_identity :
    ℕ → SignedIdentity → AgentIdentityManager → VerificationResult × AgentIdentityManager
unfolding refused judge_signature controls extract_address_from_did starts_with
verify_identity now s m =
    if starts_with (codes "did:key:") s.document.id
    then if ltb (s.signed_at + max_age) now
      then (refused now VerificationError.signature_expired, m)
      else if controls s.document.controller (extract_address_from_did s.document.id)
      then judge_signature now s m
      else (refused now VerificationError.controller_mismatch, m)
    else (refused now VerificationError.invalid_did_format, m)
