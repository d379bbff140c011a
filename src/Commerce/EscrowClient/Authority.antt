-- ===== src/Commerce/EscrowClient/Authority.antt =====
-- Who may do what to an escrow, and what a refused request leaves behind.
use reth_monmouth.Common.{
  ℕ, ◌≡◌, refl, ◌⊎◌, ◌↔◌, inl, inr, Bool, true, false, none, some, arith, if◌then◌else◌,
  Option-cases, Bool-cases,
}
use reth_monmouth.Common.Text.{lower, same_folded_iff}
use reth_monmouth.Common.Assoc.{lookup}
use reth_monmouth.Guardrails.Policy.{Address}
use reth_monmouth.Guardrails.Enforcer.Permission.{IsPermitted, validate_iff}
use reth_monmouth.Wallet
use reth_monmouth.Commerce.Types.{
  EscrowId, EscrowState, is_locked, is_disputed, EscrowRecord, CreateEscrowParams, DisputeParams,
  DisputeResolution,
}
use reth_monmouth.Commerce.EscrowClient.{
  EscrowClient, Outcome, create_escrow, release_escrow, refund_escrow, is_caller, escrow_intent,
  lock_funds,
}
use reth_monmouth.Commerce.EscrowClient.Disputes.{
  dispute_escrow, resolve_dispute, is_party, is_wrong_arbiter,
}
use reth_monmouth.Commerce.EscrowClient.Calls.{
  Request, creates, releases, refunds, disputes, resolves, request, is_success,
}

-- A connected address that is this one, up to the case of letters.
abbrev pub IsCaller : EscrowClient → Address → Type 0
IsCaller c a =
    (caller : Address) × (c.wallet.connected_address ≡ some caller) × (lower caller ≡ lower a)

-- What a request needs in order to succeed.
abbrev pub MayDo : ℕ → Request → EscrowClient → Type 0
MayDo now (creates id params) c =
    (payer : Address) × (c.wallet.connected_address ≡ some payer)
    × IsPermitted now (escrow_intent params) c.wallet.enforcer
MayDo now (releases id) c =
    (e : EscrowRecord) × (lookup id c.escrows ≡ some e)
    × (e.state ≡ EscrowState.locked)
    × IsCaller c e.payer
MayDo now (refunds id) c =
    (e : EscrowRecord) × (lookup id c.escrows ≡ some e)
    × (e.state ≡ EscrowState.locked)
    × IsCaller c e.payer
MayDo now (disputes params) c =
    (e : EscrowRecord) × (lookup params.escrow_id c.escrows ≡ some e)
    × (e.state ≡ EscrowState.locked)
    × (IsCaller c e.payer ⊎ IsCaller c e.recipient)
MayDo now (resolves r) c =
    (e : EscrowRecord) × (lookup r.escrow_id c.escrows ≡ some e)
    × (e.state ≡ EscrowState.disputed)
    × ((caller : Address) × (c.wallet.connected_address ≡ some caller)
        × ((e.arbiter ≡ none) ⊎ ((a : Address) × (e.arbiter ≡ some a) × (lower caller ≡ lower a))))

is_locked_iff : (s : EscrowState) → (is_locked s ≡ true) ↔ (s ≡ EscrowState.locked)
is_locked_iff EscrowState.locked = (λ h. refl, λ h. refl)
is_locked_iff _ = (λ h. cc, λ h. cc)

is_disputed_iff : (s : EscrowState) → (is_disputed s ≡ true) ↔ (s ≡ EscrowState.disputed)
is_disputed_iff EscrowState.disputed = (λ h. refl, λ h. refl)
is_disputed_iff _ = (λ h. cc, λ h. cc)

is_caller_iff :
    (c : EscrowClient) (a : Address)
    → (is_caller c.wallet.connected_address a ≡ true) ↔ IsCaller c a
is_caller_iff c a = elim (Option-cases c.wallet.connected_address) [
  | inl nobody ↦ (λ h. ground arith, λ (caller, here, same). ground arith)
  | inr (caller, here) ↦ (
    λ h. (caller, here, (same_folded_iff caller a).0 (ground arith)),
    λ (other, there, same). rw there ((same_folded_iff other a).1 same),
  )
]

pub releases_iff :
    (now : ℕ) (id : EscrowId) (c : EscrowClient)
    → (is_success (release_escrow now id c).0 ≡ true) ↔ MayDo now (releases id) c
unfolding release_escrow
releases_iff now id c = elim (Option-cases (lookup id c.escrows)) [
  | inl missing ↦ (λ h. ground arith, λ (e, found, _, _). ground arith)
  | inr (e, found) ↦ (
    λ h. (
      e,
      found,
      (is_locked_iff e.state).0 (ground arith),
      (is_caller_iff c e.payer).0 (ground arith),
    ),
    λ (e', found', locked, who).
        ground (arith, (is_locked_iff e'.state).1 locked, (is_caller_iff c e'.payer).1 who),
  )
]

pub refunds_iff :
    (now : ℕ) (id : EscrowId) (c : EscrowClient)
    → (is_success (refund_escrow now id c).0 ≡ true) ↔ MayDo now (refunds id) c
unfolding refund_escrow
refunds_iff now id c = elim (Option-cases (lookup id c.escrows)) [
  | inl missing ↦ (λ h. ground arith, λ (e, found, _, _). ground arith)
  | inr (e, found) ↦ (
    λ h. (
      e,
      found,
      (is_locked_iff e.state).0 (ground arith),
      (is_caller_iff c e.payer).0 (ground arith),
    ),
    λ (e', found', locked, who).
        ground (arith, (is_locked_iff e'.state).1 locked, (is_caller_iff c e'.payer).1 who),
  )
]

party_iff :
    (c : EscrowClient) (e : EscrowRecord) (caller : Address)
    → c.wallet.connected_address ≡ some caller
    → (is_party caller e ≡ true) ↔ (IsCaller c e.payer ⊎ IsCaller c e.recipient)
party_iff c e caller here =
    let payer = is_caller_iff c e.payer in
    let recipient = is_caller_iff c e.recipient in
    (
      λ h. elim (Bool-cases (is_caller c.wallet.connected_address e.payer)) [
        | inl it ↦ inl (payer.0 it)
        | inr other ↦ inr (recipient.0 (ground arith))
      ],
      λ h. elim h [ inl p ↦ ground (arith, payer.1 p) | inr r ↦ ground (arith, recipient.1 r) ],
    )

disputes_iff :
    (now : ℕ) (params : DisputeParams) (c : EscrowClient)
    → (is_success (dispute_escrow now params c).0 ≡ true) ↔ MayDo now (disputes params) c
unfolding dispute_escrow
disputes_iff now params c = elim (Option-cases (lookup params.escrow_id c.escrows)) [
  | inl missing ↦ (λ h. ground arith, λ (e, found, _, _). ground arith)
  | inr (e, found) ↦ elim (Option-cases c.wallet.connected_address) [
    | inl nobody ↦ (
      λ h. ground arith,
      λ (e', found', locked, who). elim who [
        | inl (a, there, _) ↦ ground arith
        | inr (a, there, _) ↦ ground arith
      ],
    )
    | inr (caller, here) ↦ (
      λ h. (
        e,
        found,
        (is_locked_iff e.state).0 (ground arith),
        (party_iff c e caller here).0 (ground arith),
      ),
      λ (e', found', locked, who).
          ground (arith, (is_locked_iff e'.state).1 locked, (party_iff c e' caller here).1 who),
    )
  ]
]

arbiter_iff :
    (e : EscrowRecord) (caller : Address)
    → (is_wrong_arbiter caller e ≡ false)
      ↔ ((e.arbiter ≡ none) ⊎ ((a : Address) × (e.arbiter ≡ some a) × (lower caller ≡ lower a)))
arbiter_iff e caller = elim (Option-cases e.arbiter) [
  | inl nobody ↦ (λ h. inl nobody, λ h. ground arith)
  | inr (a, here) ↦ (
    λ h. inr (a, here, (same_folded_iff caller a).0 (ground arith)),
    λ h. elim h [
      | inl nobody ↦ ground arith
      | inr (b, there, same) ↦ ground (arith, (same_folded_iff caller b).1 same)
    ],
  )
]

pub resolves_iff :
    (now : ℕ) (r : DisputeResolution) (c : EscrowClient)
    → (is_success (resolve_dispute now r c).0 ≡ true) ↔ MayDo now (resolves r) c
unfolding resolve_dispute
resolves_iff now r c = elim (Option-cases (lookup r.escrow_id c.escrows)) [
  | inl missing ↦ (λ h. ground arith, λ (e, found, _, _). ground arith)
  | inr (e, found) ↦ elim (Option-cases c.wallet.connected_address) [
    | inl nobody ↦ (λ h. ground arith, λ (e', found', locked, (a, there, _)). ground arith)
    | inr (caller, here) ↦ (
      λ h. (
        e,
        found,
        (is_disputed_iff e.state).0 (ground arith),
        (caller, here, (arbiter_iff e caller).0 (ground arith)),
      ),
      λ (e', found', disputed, (caller', here', who)).
          ground (arith, (is_disputed_iff e'.state).1 disputed, (arbiter_iff e' caller').1 who),
    )
  ]
]

pub creates_iff :
    (now : ℕ) (id : EscrowId) (params : CreateEscrowParams) (c : EscrowClient)
    → (is_success (create_escrow now id params c).0 ≡ true) ↔ MayDo now (creates id params) c
unfolding create_escrow Wallet.validate_transaction lock_funds
creates_iff now id params c =
    let permitted = validate_iff now (escrow_intent params) c.wallet.enforcer in
    elim (Option-cases c.wallet.connected_address) [
      | inl nobody ↦ (λ h. ground arith, λ (a, there, _). ground arith)
      | inr (payer, here) ↦ (
        λ h. (payer, here, permitted.0 (ground arith)),
        λ (payer', here', p). ground (arith, permitted.1 p),
      )
    ]

-- A request succeeds exactly when it may: a creation needs a connected wallet and an intent that the
-- policy permits; a release or a refund needs a locked escrow and its payer; a dispute needs a locked
-- escrow and one of its parties; a resolution needs a disputed escrow, a connected wallet and, where
-- the escrow names an arbiter, that arbiter.
pub request_iff :
    (now : ℕ) (r : Request) (c : EscrowClient)
    → (is_success (request now r c).0 ≡ true) ↔ MayDo now r c
unfolding request
request_iff now (creates id params) c = creates_iff now id params c
request_iff now (releases id) c = releases_iff now id c
request_iff now (refunds id) c = refunds_iff now id c
request_iff now (disputes params) c = disputes_iff now params c
request_iff now (resolves r) c = resolves_iff now r c

abbrev pub is_thrown : Outcome → Bool
is_thrown (Outcome.returned _) = false
is_thrown (Outcome.thrown _) = true

-- A request that throws changes nothing at all; one that the guardrails refuse leaves all but the
-- wallet as it was.
pub request_refused :
    (now : ℕ) (r : Request) (c : EscrowClient)
    → is_success (request now r c).0 ≡ false
    → let (o, c') = request now r c in
      if is_thrown o then c' ≡ c else (c' ≡ record c { wallet = c'.wallet })
unfolding request create_escrow release_escrow refund_escrow dispute_escrow resolve_dispute
    lock_funds
request_refused now (creates id params) c h = ground arith
request_refused now (releases id) c h = ground arith
request_refused now (refunds id) c h = ground arith
request_refused now (disputes params) c h = ground arith
request_refused now (resolves r) c h = ground arith
