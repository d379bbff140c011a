-- ===== src/AgentWallet/Identity/Verified.antt =====
-- Which signed documents `verifyIdentity` of wallet-sdk/src/wallet/AgentIdentityManager.ts accepts.
use reth_monmouth.Common.{
  ℕ, ◌+◌, ◌≤◌, ◌≡◌, ◌↔◌, refl, sym, ap, ◌∙◌, true, false, Option, none, some, List, arith, ltb,
  is_empty,
}
use mathlib.Core.Path.{subst}
use mathlib.Core.Option.{some_inj, none-ne-some}
use reth_monmouth.Common.Text.{lower, same_folded, same_folded_iff, starts_with}
use reth_monmouth.Core.Types.{UniversalAddress}
use reth_monmouth.Core.Address.{same_chain}
use reth_monmouth.Core.Address.RoundTrip.{same_chain_iff}
use reth_monmouth.AgentWallet.Identity.{
  IdentityDocument, SignedIdentity, AgentIdentityManager, did_start, parse_did, max_age, refused,
  judge_signature, judge_address, verify_identity, sign_document, sign_identity,
}
use reth_monmouth.AgentWallet.Identity.Documents.{IsOwn, OwnsIdentity, parse_did-generate_did}

-- What makes a signed document acceptable; the signature's bytes are not compared with anything.
abbrev pub IsAcceptable : ℕ → SignedIdentity → Type 0
IsAcceptable now s =
    (starts_with did_start s.document.id ≡ true)
    × (now ≤ s.signed_at + max_age)
    × ((a : UniversalAddress) × (parse_did s.document.id ≡ some a)
        × (lower a.display ≡ lower s.document.controller.display)
        × (a.chain_type ≡ s.document.chain_type))
    × (is_empty s.signature ≡ false)

module _ (now : ℕ) (s : SignedIdentity) (m : AgentIdentityManager) where
  judge_some :
      (a : UniversalAddress)
      → ((judge_address now s (some a) m).0.valid ≡ true) ↔ (
          (same_folded a.display s.document.controller.display ≡ true)
          × (same_chain a.chain_type s.document.chain_type ≡ true)
          × (is_empty s.signature ≡ false))
  unfolding judge_address judge_signature refused
  judge_some a = ground arith

  -- The address that the identifier was parsed as, compared with the document.
  abbrev Matches : Option UniversalAddress → Type 0
  Matches found =
      (a : UniversalAddress) × (found ≡ some a)
      × (lower a.display ≡ lower s.document.controller.display)
      × (a.chain_type ≡ s.document.chain_type)

  judge_none : (judge_address now s none m).0.valid ≡ false
  unfolding judge_address refused
  judge_none = refl

  judge_address-valid :
      (found : Option UniversalAddress)
      → ((judge_address now s found m).0.valid ≡ true)
        ↔ (Matches found × (is_empty s.signature ≡ false))
  judge_address-valid none =
      ((λ h. ground (arith, judge_none)), (λ h. absurd (none-ne-some _ h.0.1)))
  judge_address-valid (some a) =
      let d = s.document in
      let display = same_folded_iff a.display d.controller.display in
      let chain = same_chain_iff a.chain_type d.chain_type in
      (
        (λ h.
            let (shown, of_chain, signed) = (judge_some a).0 h in
            ((a, refl, display.0 shown, chain.0 of_chain), signed)),
        (λ ((b, e, shown, of_chain), signed).
            let same : b ≡ a = some_inj.0 (sym e) in
            (judge_some a).1 (
              display.1 (subst (λ t. lower t.display ≡ lower d.controller.display) same shown),
              chain.1 (subst (λ t. t.chain_type ≡ d.chain_type) same of_chain),
              signed,
            )),
      )

  verify_split : ((verify_identity now s m).0.valid ≡ true) ↔ (
      (starts_with did_start s.document.id ≡ true)
      × (ltb (s.signed_at + max_age) now ≡ false)
      × ((judge_address now s (parse_did s.document.id) m).0.valid ≡ true))
  unfolding verify_identity refused
  verify_split = ground arith

  -- Verification accepts a signed document exactly if its identifier has the start, its signature is
  -- not older than a day by the time that comes with it, the identifier is parsed as the controller's
  -- address on the document's chain, and there is a signature.
  pub verify_identity_iff : ((verify_identity now s m).0.valid ≡ true) ↔ IsAcceptable now s
  verify_identity_iff =
      let judged = judge_address-valid (parse_did s.document.id) in
      (
        (λ h.
            let (start, young, valid) = verify_split.0 h in
            let (matches, signed) = judged.0 valid in (start, ground arith, matches, signed)),
        (λ (start, young, matches, signed).
            verify_split.1 (start, ground arith, judged.1 (matches, signed))),
      )

sign_document-document :
    (now : ℕ) (reply : Option (List ℕ)) (found : Option IdentityDocument) (m : AgentIdentityManager)
    (s : SignedIdentity)
    → (sign_document now reply found m).0 ≡ some s
    → (found ≡ some s.document) × (s.signed_at ≡ now) × (reply ≡ some s.signature)
unfolding sign_document
sign_document-document now none none m s h = absurd (none-ne-some s h)
sign_document-document now (some signature) none m s h = absurd (none-ne-some s h)
sign_document-document now none (some d) m s h = absurd (none-ne-some s h)
sign_document-document now (some signature) (some d) m s h =
    let same = some_inj.0 h in
    (
      ap (λ t. some t.document) same,
      sym (ap (λ t. t.signed_at) same),
      ap (λ t. some t.signature) same,
    )

IsOwn-matches :
    (d : IdentityDocument)
    → IsOwn d
    → (starts_with did_start d.id ≡ true) × (parse_did d.id ≡ some d.controller)
IsOwn-matches d (bytes, own, chain, named) =
    let (did, made, start, parsed) = parse_did-generate_did d.controller bytes in
    let same : did ≡ d.id = some_inj.0 (sym made ∙ named) in
    (
      subst (λ t. starts_with did_start t ≡ true) same start,
      subst (λ t. parse_did t ≡ some d.controller) same (parsed ∙ own),
    )

-- What one manager signs with its identity, any other manager accepts for a day, if the identity is
-- about an account and the adapter's signature is not empty.
pub verify_identity-sign_identity :
    (signed_at now : ℕ) (reply : Option (List ℕ)) (m other : AgentIdentityManager)
    (s : SignedIdentity)
    → OwnsIdentity m
    → (sign_identity signed_at reply m).0 ≡ some s
    → is_empty s.signature ≡ false
    → now ≤ signed_at + max_age
    → (verify_identity now s other).0.valid ≡ true
unfolding sign_identity
verify_identity-sign_identity signed_at now reply m other s own signs signature young =
    let (found, at_time, answered) = sign_document-document signed_at reply m.identity m s signs in
    let (bytes, made, chain, named) = own s.document found in
    let (start, parsed) = IsOwn-matches s.document (own s.document found) in
    (verify_identity_iff now s other).1
      (start, omega arith, (s.document.controller, parsed, refl, chain), signature)
