-- ===== src/Commerce/EscrowClient/Lifecycle.antt =====
-- How an escrow changes over any history of calls.
use reth_monmouth.Common.{
  ℕ, ◌≡◌, refl, ap, inl, inr, true, some, List, [], ◌∷◌, arith, Option-cases, Bool-cases,
}
use reth_monmouth.Common.Text.{text_eq, text_eq-true}
use reth_monmouth.Common.Assoc.{Assoc, lookup, insert, lookup-insert}
use mathlib.Core.Path.{subst}
use reth_monmouth.Memory.Entry.{ActivityActionType}
use reth_monmouth.Commerce.Types.{
  EscrowEvent, EscrowId, EscrowState, is_locked, is_disputed, EscrowRecord, DisputeParams,
  DisputeResolution,
}
use reth_monmouth.Commerce.EscrowClient.{
  EscrowLog, EscrowClient, release_escrow, refund_escrow, publish, log_activity, persist_escrows,
  emit, placeholder,
}
use reth_monmouth.Commerce.EscrowClient.Disputes.{dispute_escrow, resolve_dispute}
use reth_monmouth.Commerce.EscrowClient.Queries.{
  check_expired_escrows, expire, expire_all, emit_expired, overdue_ids, is_overdue,
}
use reth_monmouth.Commerce.EscrowClient.Calls.{is_success}

-- The moves of the state machine.
pub data Move : EscrowState → EscrowState → Type 0 where
  release : Move EscrowState.locked EscrowState.released
  refund : Move EscrowState.locked EscrowState.refunded
  dispute : Move EscrowState.locked EscrowState.disputed
  expire_late : Move EscrowState.locked EscrowState.expired
  resolve : Move EscrowState.disputed EscrowState.resolved

-- Any number of moves.
pub data Moves : EscrowState → EscrowState → Type 0 where
  stay : (s t : EscrowState) → s ≡ t → Moves s t
  move : (s t u : EscrowState) → Move s t → Moves t u → Moves s u

-- The terms of an escrow, which are fixed when it is made.
pub record SameTerms (e f : EscrowRecord) : Type 0 where
  pub id : f.id ≡ e.id
  pub payer : f.payer ≡ e.payer
  pub recipient : f.recipient ≡ e.recipient
  pub amount : f.amount ≡ e.amount
  pub token : f.token ≡ e.token
  pub arbiter : f.arbiter ≡ e.arbiter
  pub created_at : f.created_at ≡ e.created_at
  pub expires_at : f.expires_at ≡ e.expires_at

-- The escrow under `id` is still there, on the same terms, and has moved as the machine allows.
abbrev pub Evolved : EscrowId → EscrowRecord → EscrowClient → Type 0
Evolved id e c =
    (f : EscrowRecord) × (lookup id c.escrows ≡ some f) × SameTerms e f × Moves e.state f.state

pub same_terms : (e : EscrowRecord) → SameTerms e e
same_terms e = record {
  id = refl;
  payer = refl;
  recipient = refl;
  amount = refl;
  token = refl;
  arbiter = refl;
  created_at = refl;
  expires_at = refl;
}

one : {s t : EscrowState} → Move s t → Moves s t
one {s} {t} m = move s t t m (stay t t refl)

pub Moves-trans : {s t u : EscrowState} → Moves s t → Moves t u → Moves s u
Moves-trans {s} {t} {u} (stay _ _ e) ms = rw e ms
Moves-trans {s} {t} {u} (move _ v _ m ns) ms = move s v u m (Moves-trans ns ms)

publish-escrows :
    (now : ℕ) (id : EscrowId) (e : EscrowRecord) (a : ActivityActionType) (p : EscrowLog)
    (ev : EscrowEvent) (c : EscrowClient)
    → (publish now id e a p ev c).escrows ≡ insert id e c.escrows
unfolding publish persist_escrows log_activity emit
publish-escrows now id e a p ev c = refl

-- An update of the record under `id` moves that record, and leaves the others.
Evolved-insert :
    (k id : EscrowId) (e g g' : EscrowRecord) (c c' : EscrowClient)
    → lookup k c.escrows ≡ some e
    → lookup id c.escrows ≡ some g
    → c'.escrows ≡ insert id g' c.escrows
    → SameTerms g g'
    → Moves g.state g'.state
    → Evolved k e c'
Evolved-insert k id e g g' c c' found there same terms moves = elim (Bool-cases (text_eq k id)) [
  | inl this ↦
      let k≡id : k ≡ id = text_eq-true k id this in
      let g≡e : g ≡ e = cc (ap (λ x. lookup x c.escrows) k≡id) in
      subst (λ x. Evolved k x c') g≡e (g', rw same (rw lookup-insert (rw this)), terms, moves)
  | inr other ↦ (e, rw same (rw lookup-insert (rw other found)), same_terms e, stay _ _ refl)
]

is_locked-eq : (s : EscrowState) → is_locked s ≡ true → s ≡ EscrowState.locked
is_locked-eq EscrowState.locked h = refl
is_locked-eq _ h = cc

is_disputed-eq : (s : EscrowState) → is_disputed s ≡ true → s ≡ EscrowState.disputed
is_disputed-eq EscrowState.disputed h = refl
is_disputed-eq _ h = cc

-- How a request on a stored record ends: without a change of the records, or with one move.
pub data Changed (c c' : EscrowClient) : Type 0 where
  kept : c'.escrows ≡ c.escrows → Changed c c'
  moved :
      (id : EscrowId) (g g' : EscrowRecord)
      → lookup id c.escrows ≡ some g
      → c'.escrows ≡ insert id g' c.escrows
      → SameTerms g g'
      → Move g.state g'.state
      → Changed c c'

pub Changed-Evolved :
    (k : EscrowId) (e : EscrowRecord) (c c' : EscrowClient)
    → lookup k c.escrows ≡ some e
    → Changed c c'
    → Evolved k e c'
Changed-Evolved k e c c' found (kept same) = (e, rw same found, same_terms e, stay _ _ refl)
Changed-Evolved k e c c' found (moved id g g' there same terms m) =
    Evolved-insert k id e g g' c c' found there same terms (one m)

pub release-Changed :
    (now : ℕ) (id : EscrowId) (c : EscrowClient) → Changed c (release_escrow now id c).1
unfolding release_escrow publish
release-Changed now id c = elim (Option-cases (lookup id c.escrows)) [
  | inl missing ↦ kept (ground arith)
  | inr (g, found) ↦ elim (Bool-cases (is_success (release_escrow now id c).0)) [
    | inl done ↦
        moved id g
          (record g {
            state = EscrowState.released;
            released_at = some now;
            tx_hash = some (placeholder b'r');
          })
          found (ground arith) (ground arith)
          (rw (is_locked-eq g.state (ground arith)) Move.release)
    | inr failed ↦ kept (ground arith)
  ]
]

pub refund-Changed :
    (now : ℕ) (id : EscrowId) (c : EscrowClient) → Changed c (refund_escrow now id c).1
unfolding refund_escrow publish
refund-Changed now id c = elim (Option-cases (lookup id c.escrows)) [
  | inl missing ↦ kept (ground arith)
  | inr (g, found) ↦ elim (Bool-cases (is_success (refund_escrow now id c).0)) [
    | inl done ↦
        moved id g
          (record g {
            state = EscrowState.refunded;
            refunded_at = some now;
            tx_hash = some (placeholder b'f');
          })
          found (ground arith) (ground arith) (rw (is_locked-eq g.state (ground arith)) Move.refund)
    | inr failed ↦ kept (ground arith)
  ]
]

pub dispute-Changed :
    (now : ℕ) (params : DisputeParams) (c : EscrowClient)
    → Changed c (dispute_escrow now params c).1
unfolding dispute_escrow publish
dispute-Changed now params c = elim (Option-cases (lookup params.escrow_id c.escrows)) [
  | inl missing ↦ kept (ground arith)
  | inr (g, found) ↦ elim (Bool-cases (is_success (dispute_escrow now params c).0)) [
    | inl done ↦
        moved params.escrow_id g
          (record g { state = EscrowState.disputed; dispute_reason = some params.reason }) found
          (ground arith) (ground arith) (rw (is_locked-eq g.state (ground arith)) Move.dispute)
    | inr failed ↦ kept (ground arith)
  ]
]

pub resolve-Changed :
    (now : ℕ) (r : DisputeResolution) (c : EscrowClient) → Changed c (resolve_dispute now r c).1
unfolding resolve_dispute publish
resolve-Changed now r c = elim (Option-cases (lookup r.escrow_id c.escrows)) [
  | inl missing ↦ kept (ground arith)
  | inr (g, found) ↦ elim (Bool-cases (is_success (resolve_dispute now r c).0)) [
    | inl done ↦
        moved r.escrow_id g
          (record g {
            state = EscrowState.resolved;
            resolution = some (record { winner = r.winner; amount = r.amount; reason = r.reason });
            tx_hash = some (placeholder b'd');
          })
          found (ground arith) (ground arith)
          (rw (is_disputed-eq g.state (ground arith)) Move.resolve)
    | inr failed ↦ kept (ground arith)
  ]
]

emit_expired-escrows :
    (ids : List EscrowId) (c : EscrowClient) → (emit_expired ids c).escrows ≡ c.escrows
unfolding emit_expired emit
emit_expired-escrows [] c = refl
emit_expired-escrows (id ∷ ids) c = emit_expired-escrows ids _

pub sweep-escrows :
    (now : ℕ) (c : EscrowClient)
    → (check_expired_escrows now c).1.escrows ≡ expire_all now c.escrows
unfolding check_expired_escrows persist_escrows
sweep-escrows now c = ground (
  arith,
  emit_expired-escrows (overdue_ids now c.escrows)
      (record c { escrows = expire_all now c.escrows }),
)

pub expire-Evolves :
    (now : ℕ) (e : EscrowRecord) → SameTerms e (expire now e) × Moves e.state (expire now e).state
unfolding expire
expire-Evolves now e = elim (Bool-cases (is_overdue now e)) [
  | inl late ↦
      rw late (ground arith, rw (is_locked-eq e.state (ground arith)) (one Move.expire_late))
  | inr fine ↦ rw fine (same_terms e, stay _ _ refl)
]

pub lookup-expire_all :
    (now : ℕ) (k : EscrowId) (m : Assoc EscrowRecord) (e : EscrowRecord)
    → lookup k m ≡ some e
    → lookup k (expire_all now m) ≡ some (expire now e)
unfolding lookup expire_all
lookup-expire_all now k [] e found = cc
lookup-expire_all now k ((j, x) ∷ m) e found = elim (Bool-cases (text_eq k j)) [
  | inl here ↦ ground arith
  | inr other ↦ ground (arith, lookup-expire_all now k m e)
]
