-- ===== src/Commerce/EscrowClient/History.antt =====
-- Escrows over histories of calls, sweeps and changes of the wallet.
use reth_monmouth.Common.{
  ℕ, ◌≡◌, ◌≢◌, refl, sym, ◌∙◌, inl, inr, some, List, [], ◌∷◌, arith, All, Option-cases,
}
use reth_monmouth.Common.Assoc.{lookup, lookup-insert_ne}
use reth_monmouth.Wallet
use reth_monmouth.Commerce.Types.{EscrowId, EscrowState, EscrowRecord, CreateEscrowParams}
use reth_monmouth.Commerce.EscrowClient.{
  EscrowClient, create_escrow, lock_funds, escrow_intent, new_escrow,
}
use reth_monmouth.Commerce.EscrowClient.Queries.{expire, on, off, set_activity_log}
use reth_monmouth.Commerce.EscrowClient.Calls.{
  creates, releases, refunds, disputes, resolves, request, Event, requests, sweeps, clears, step,
  run,
}
use reth_monmouth.Commerce.EscrowClient.Lifecycle.{
  Move, Moves, stay, move, SameTerms, Evolved, same_terms, Moves-trans, Changed-Evolved,
  release-Changed, refund-Changed, dispute-Changed, resolve-Changed, sweep-escrows, expire-Evolves,
  lookup-expire_all,
}

-- The event makes no escrow under `id`: the ids that are drawn are others.
abbrev pub Spares : EscrowId → ℕ × Event → Type 0
Spares id (now, requests (creates new params)) = id ≢ new
Spares id (now, requests _) = Unit
Spares id (now, _) = Unit

-- The event is a call of `clearEscrows`.
abbrev pub IsClear : ℕ × Event → Type 0
IsClear (now, clears) = Unit
IsClear (now, _) = ⊥

lock_funds-escrows :
    (now : ℕ) (new k payer : EscrowId) (params : CreateEscrowParams) (c : EscrowClient)
    → k ≢ new
    → lookup k (lock_funds now new payer params c).1.escrows ≡ lookup k c.escrows
unfolding lock_funds
lock_funds-escrows now new k payer params c other =
    lookup-insert_ne k new (new_escrow now new payer params c.default_arbiter) c.escrows other

pub create_escrow_others :
    (now : ℕ) (new k : EscrowId) (params : CreateEscrowParams) (c : EscrowClient)
    → k ≢ new
    → lookup k (create_escrow now new params c).1.escrows ≡ lookup k c.escrows
unfolding create_escrow
create_escrow_others now new k params c other = elim (Option-cases c.wallet.connected_address) [
  | inl nobody ↦ ground arith
  | inr (payer, here) ↦
      let w = (Wallet.validate_transaction now (escrow_intent params) c.wallet).1 in
      ground (arith, lock_funds-escrows now new k payer params (record c { wallet = w }) other)
]

step-Evolved :
    (k : EscrowId) (e : EscrowRecord) (ev : ℕ × Event) (c : EscrowClient)
    → Spares k ev
    → ¬ IsClear ev
    → lookup k c.escrows ≡ some e
    → Evolved k e (step ev c)
unfolding step request on off set_activity_log
step-Evolved k e (now, requests (creates new params)) c other _ found =
    (e, create_escrow_others now new k params c other ∙ found, same_terms e, stay _ _ refl)
step-Evolved k e (now, requests (releases id)) c _ _ found =
    Changed-Evolved k e c _ found (release-Changed now id c)
step-Evolved k e (now, requests (refunds id)) c _ _ found =
    Changed-Evolved k e c _ found (refund-Changed now id c)
step-Evolved k e (now, requests (disputes params)) c _ _ found =
    Changed-Evolved k e c _ found (dispute-Changed now params c)
step-Evolved k e (now, requests (resolves r)) c _ _ found =
    Changed-Evolved k e c _ found (resolve-Changed now r c)
step-Evolved k e (now, sweeps) c _ _ found =
    let (terms, moves) = expire-Evolves now e in
    (
      expire now e,
      rw (sweep-escrows now c) (lookup-expire_all now k c.escrows e found),
      terms,
      moves,
    )
step-Evolved k e (now, clears) c _ kept found = absurd (kept tt)
step-Evolved k e (now, _) c _ _ found = (e, found, same_terms e, stay _ _ refl)

SameTerms-trans : (e f g : EscrowRecord) → SameTerms e f → SameTerms f g → SameTerms e g
SameTerms-trans e f g a b = record {
  id = b.id ∙ a.id;
  payer = b.payer ∙ a.payer;
  recipient = b.recipient ∙ a.recipient;
  amount = b.amount ∙ a.amount;
  token = b.token ∙ a.token;
  arbiter = b.arbiter ∙ a.arbiter;
  created_at = b.created_at ∙ a.created_at;
  expires_at = b.expires_at ∙ a.expires_at;
}

-- Over any history without `clearEscrows`, whatever the wallet becomes in between, an escrow is kept,
-- never changes its id, parties, amount, token, arbiter or times, and only moves from locked to released,
-- refunded, disputed or expired, and from disputed to resolved. The ids that are drawn for new
-- escrows are not its own.
pub run-Evolved :
    (k : EscrowId) (e : EscrowRecord) (evs : List (ℕ × Event)) (c : EscrowClient)
    → All (Spares k) evs
    → All (λ ev. ¬ IsClear ev) evs
    → lookup k c.escrows ≡ some e
    → Evolved k e (run evs c)
unfolding run
run-Evolved k e [] c _ _ found = (e, found, same_terms e, stay _ _ refl)
run-Evolved k e (ev ∷ evs) c (spares, later) (kept, uncleared) found =
    let (f, found', terms, moves) = step-Evolved k e ev c spares kept found in
    let (g, found'', terms', moves') = run-Evolved k f evs (step ev c) later uncleared found' in
    (g, found'', SameTerms-trans e f g terms terms', Moves-trans moves moves')

-- The states that no move leaves.
abbrev pub IsFinal : EscrowState → Type 0
IsFinal EscrowState.pending = Unit
IsFinal EscrowState.locked = ⊥
IsFinal EscrowState.released = Unit
IsFinal EscrowState.refunded = Unit
IsFinal EscrowState.disputed = ⊥
IsFinal EscrowState.resolved = Unit
IsFinal EscrowState.expired = Unit

Move-IsFinal : {s t : EscrowState} → Move s t → ¬ IsFinal s
Move-IsFinal Move.release h = h
Move-IsFinal Move.refund h = h
Move-IsFinal Move.dispute h = h
Move-IsFinal Move.expire_late h = h
Move-IsFinal Move.resolve h = h

Moves-IsFinal : {s t : EscrowState} → Moves s t → IsFinal s → t ≡ s
Moves-IsFinal (stay _ _ e) h = sym e
Moves-IsFinal (move _ _ _ m ms) h = absurd (Move-IsFinal m h)

-- Without `clearEscrows`, an escrow that was released, refunded, resolved or has expired stays so: no later call pays it out
-- a second time.
pub run_final :
    (k : EscrowId) (e : EscrowRecord) (evs : List (ℕ × Event)) (c : EscrowClient)
    → All (Spares k) evs
    → All (λ ev. ¬ IsClear ev) evs
    → lookup k c.escrows ≡ some e
    → IsFinal e.state
    → (f : EscrowRecord) × (lookup k (run evs c).escrows ≡ some f)
      × (f.state ≡ e.state)
      × (f.amount ≡ e.amount)
run_final k e evs c spares uncleared found final =
    let (f, found', terms, moves) = run-Evolved k e evs c spares uncleared found in
    (f, found', Moves-IsFinal moves final, terms.amount)
