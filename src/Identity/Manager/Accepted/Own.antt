-- ===== src/Identity/Manager/Accepted/Own.antt =====
-- What a manager signs is accepted (wallet-sdk/src/identity/AgentIdentity.ts).
use reth_monmouth.Common.{
  ℕ, suc, ◌+◌, ◌-◌, ◌≤◌, ◌≡◌, refl, ap, ◌∙◌, true, false, Option, some, List, ◌++◌, arith, ltb,
  is_empty, length, length-append, length-repeat, repeat, All,
}
use reth_monmouth.Common.Text.{
  Text, codes, lower, lower_idempotent, same_folded_iff, starts_with, pad_start,
}
use reth_monmouth.Core.Hex.{IsByte, bytes_to_hex}
use reth_monmouth.Core.Base58.{hex_of}
use reth_monmouth.Identity.Manager.{
  hash_loop, magnitude, IdentityDocument, SignedIdentity, AgentIdentityManager, generate_did,
  extract_address_from_did, hash_message, stub_sign,
}
use reth_monmouth.Identity.Manager.Dids.{extract_address_from_did-generate_did}
use reth_monmouth.Identity.Manager.Accepted.{
  create_signature, sign_with, sign_found, sign_identity, verify_signature, max_age,
  judge_signature, controls, verify_identity,
}

length-pad_start-ge : (n c : ℕ) (s : Text) → n ≤ length (pad_start n c s)
unfolding pad_start
length-pad_start-ge n c s =
    omega (arith, length-append (repeat (n - length s) c) s, length-repeat (n - length s) c)

length-hash_message : (message : Text) → 16 ≤ length (hash_message message)
unfolding hash_message
length-hash_message message = length-pad_start-ge 16 b'0' (hex_of (magnitude (hash_loop 0 message)))

verify_signature-long : (s : Text) → 16 ≤ length s → verify_signature (codes "0x" ++ s) ≡ true
unfolding verify_signature starts_with
verify_signature-long s h =
    let long : ltb 10 (suc (suc (length s))) ≡ true = ground arith in rw long refl

-- The stub signature of any text passes the test of signatures, which looks at no more than their form.
verify_signature-stub_sign : (payload : Text) → verify_signature (stub_sign payload) ≡ true
unfolding stub_sign
verify_signature-stub_sign payload =
    let hash = hash_message payload in
    let zeros = repeat (64 - length hash) b'0' in
    let inner = length-append hash zeros in
    let outer = length-append (hash ++ zeros) (codes "1b") in
    verify_signature-long (hash ++ zeros ++ codes "1b")
      (omega (arith, length-hash_message payload, inner, outer))

-- A document whose identifier is the one of its controller, which is the text of some bytes in any mix
-- of cases.
abbrev pub IsOwn : IdentityDocument → Type 0
IsOwn d =
    (d.id ≡ generate_did d.controller)
    × ((raw : List ℕ) × All IsByte raw × (lower d.controller ≡ bytes_to_hex raw))

bytes_to_hex-nonempty : (raw : List ℕ) → is_empty (bytes_to_hex raw) ≡ false
unfolding bytes_to_hex
bytes_to_hex-nonempty raw = refl

IsOwn-controls :
    (d : IdentityDocument) → IsOwn d → controls d.controller (extract_address_from_did d.id) ≡ true
unfolding controls
IsOwn-controls d (named, (raw, bytes, same)) =
    let extracted =
      ap extract_address_from_did named
      ∙ extract_address_from_did-generate_did d.controller raw bytes same in
    let folded =
      (same_folded_iff (lower d.controller) d.controller).1 (lower_idempotent d.controller) in
    let some_text : is_empty (lower d.controller) ≡ false =
      ap is_empty same ∙ bytes_to_hex-nonempty raw in
    rw (extracted, folded, some_text) refl

starts_own : (owner : Text) → starts_with (codes "did:key:") (generate_did owner) ≡ true
unfolding generate_did starts_with
starts_own owner = refl

verify_own :
    (now : ℕ) (s : SignedIdentity) (m : AgentIdentityManager)
    → IsOwn s.document
    → now ≤ s.signed_at + max_age
    → verify_signature s.signature ≡ true
    → (verify_identity now s m).0.valid ≡ true
unfolding verify_identity judge_signature
verify_own now s m own young signed =
    let start = ap (starts_with (codes "did:key:")) own.0 ∙ starts_own s.document.controller in
    let in_time : ltb (s.signed_at + max_age) now ≡ false = ground arith in
    rw (start, in_time, IsOwn-controls s.document own, signed) refl

-- What a manager without a signing function signs, every manager accepts for a day, if the identity's
-- identifier is its controller's own; the signature is the stub, whatever the document says.
pub verify_identity-stub_sign :
    (signed_at now : ℕ) (json : IdentityDocument → Text) (reply : Option Text)
    (d : IdentityDocument) (m other : AgentIdentityManager)
    → m.signs_typed_data ≡ false
    → m.identity ≡ some d
    → IsOwn d
    → now ≤ signed_at + max_age
    → (s : SignedIdentity) × ((sign_identity signed_at json reply m).0 ≡ some s)
      × (s.document ≡ d)
      × ((verify_identity now s other).0.valid ≡ true)
unfolding sign_identity sign_found sign_with create_signature
verify_identity-stub_sign signed_at now json reply d m other unsigned found own young =
    let s : SignedIdentity = record {
      document = d;
      signature = stub_sign (json d);
      signed_at = signed_at;
    } in
    (
      s,
      rw (found, unsigned) refl,
      refl,
      verify_own now s other own young (verify_signature-stub_sign (json d)),
    )
