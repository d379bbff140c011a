-- ===== src/Commerce/EscrowClient/Cleared.antt =====
-- Escrows over all histories, those in which the client is cleared included.
use reth_monmouth.Common.{
  ℕ, ◌≡◌, refl, sym, ap, ◌∙◌, ◌⊎◌, inl, inr, none, some, List, [], ◌∷◌, arith, All, Some,
  Bool-cases,
}
use mathlib.Core.Option.{none-ne-some}
use reth_monmouth.Common.Text.{text_eq, text_eq-true}
use reth_monmouth.Common.Assoc.{Assoc, lookup, lookup-insert}
use reth_monmouth.Commerce.Types.{EscrowId, EscrowRecord}
use reth_monmouth.Commerce.EscrowClient.{EscrowClient}
use reth_monmouth.Commerce.EscrowClient.Queries.{
  expire_all, clear_escrows, on, off, set_activity_log,
}
use reth_monmouth.Commerce.EscrowClient.Calls.{
  creates, releases, refunds, disputes, resolves, request, Event, requests, sweeps, clears, step,
  run,
}
use reth_monmouth.Commerce.EscrowClient.Lifecycle.{
  Changed, kept, moved, Evolved, release-Changed, refund-Changed, dispute-Changed, resolve-Changed,
  sweep-escrows,
}
use reth_monmouth.Commerce.EscrowClient.History.{Spares, IsClear, create_escrow_others, run-Evolved}

abbrev pub IsAbsent : EscrowId → EscrowClient → Type 0
IsAbsent k c = lookup k c.escrows ≡ none

-- What a history has made of an escrow: the client was cleared and it is gone, or the client was not
-- and it has evolved.
abbrev pub HasFate : EscrowId → EscrowRecord → List (ℕ × Event) → EscrowClient → Type 0
HasFate k e evs c =
    (Some IsClear evs × IsAbsent k c) ⊎ (All (λ ev. ¬ IsClear ev) evs × Evolved k e c)

Changed-IsAbsent :
    (k : EscrowId) (c c' : EscrowClient) → IsAbsent k c → Changed c c' → IsAbsent k c'
Changed-IsAbsent k c c' absent (kept same) = rw same absent
Changed-IsAbsent k c c' absent (moved id g g' there same terms m) =
    elim (Bool-cases (text_eq k id)) [
      | inl this ↦
          let k≡id : k ≡ id = text_eq-true k id this in
          absurd (none-ne-some g (sym absent ∙ ap (λ x. lookup x c.escrows) k≡id ∙ there))
      | inr other ↦ rw same (rw lookup-insert (rw other absent))
    ]

expire_all-absent :
    (now : ℕ) (k : EscrowId) (m : Assoc EscrowRecord)
    → lookup k m ≡ none
    → lookup k (expire_all now m) ≡ none
unfolding lookup expire_all
expire_all-absent now k [] h = refl
expire_all-absent now k ((j, x) ∷ m) h = ground (arith, expire_all-absent now k m)

step-IsAbsent :
    (k : EscrowId) (ev : ℕ × Event) (c : EscrowClient)
    → Spares k ev
    → IsAbsent k c
    → IsAbsent k (step ev c)
unfolding step request on off set_activity_log clear_escrows lookup
step-IsAbsent k (now, requests (creates new params)) c other h =
    create_escrow_others now new k params c other ∙ h
step-IsAbsent k (now, requests (releases id)) c _ h =
    Changed-IsAbsent k c _ h (release-Changed now id c)
step-IsAbsent k (now, requests (refunds id)) c _ h =
    Changed-IsAbsent k c _ h (refund-Changed now id c)
step-IsAbsent k (now, requests (disputes params)) c _ h =
    Changed-IsAbsent k c _ h (dispute-Changed now params c)
step-IsAbsent k (now, requests (resolves r)) c _ h =
    Changed-IsAbsent k c _ h (resolve-Changed now r c)
step-IsAbsent k (now, sweeps) c _ h = rw (sweep-escrows now c) (expire_all-absent now k c.escrows h)
step-IsAbsent k (now, clears) c _ h = refl
step-IsAbsent k (now, _) c _ h = h

run-IsAbsent :
    (k : EscrowId) (evs : List (ℕ × Event)) (c : EscrowClient)
    → All (Spares k) evs
    → IsAbsent k c
    → IsAbsent k (run evs c)
unfolding run
run-IsAbsent k [] c _ h = h
run-IsAbsent k (ev ∷ evs) c (spares, later) h =
    run-IsAbsent k evs (step ev c) later (step-IsAbsent k ev c spares h)

clear-IsAbsent :
    (k : EscrowId) (ev : ℕ × Event) (c : EscrowClient) → IsClear ev → IsAbsent k (step ev c)
unfolding step clear_escrows lookup
clear-IsAbsent k (now, clears) c h = refl
clear-IsAbsent k (now, _) c h = absurd h

run-cleared :
    (k : EscrowId) (evs : List (ℕ × Event)) (c : EscrowClient)
    → All (Spares k) evs
    → Some IsClear evs
    → IsAbsent k (run evs c)
unfolding run
run-cleared k [] c _ h = absurd h
run-cleared k (ev ∷ evs) c (_, later) (inl here) =
    run-IsAbsent k evs (step ev c) later (clear-IsAbsent k ev c here)
run-cleared k (ev ∷ evs) c (_, later) (inr there) = run-cleared k evs (step ev c) later there

IsClear-or_not : (ev : ℕ × Event) → IsClear ev ⊎ ¬ IsClear ev
IsClear-or_not (now, clears) = inl tt
IsClear-or_not (now, _) = inr (λ h. h)

clears_or_not : (evs : List (ℕ × Event)) → Some IsClear evs ⊎ All (λ ev. ¬ IsClear ev) evs
clears_or_not [] = inr tt
clears_or_not (ev ∷ evs) = elim (IsClear-or_not ev) [
  | inl here ↦ inl (inl here)
  | inr kept' ↦ elim (clears_or_not evs) [
    | inl there ↦ inl (inr there)
    | inr all_kept ↦ inr (kept', all_kept)
  ]
]

-- Over any history of the client's calls, whatever the wallet becomes in between, an escrow is lost
-- exactly if `clearEscrows` is called. Otherwise it keeps its id, parties, amount, token, arbiter and
-- times, and only moves from locked to released, refunded, disputed or expired, and from disputed to
-- resolved. The ids that are drawn for new escrows are not its own.
pub run-HasFate :
    (k : EscrowId) (e : EscrowRecord) (evs : List (ℕ × Event)) (c : EscrowClient)
    → All (Spares k) evs
    → lookup k c.escrows ≡ some e
    → HasFate k e evs (run evs c)
run-HasFate k e evs c spares found = elim (clears_or_not evs) [
  | inl cleared ↦ inl (cleared, run-cleared k evs c spares cleared)
  | inr uncleared ↦ inr (uncleared, run-Evolved k e evs c spares uncleared found)
]
