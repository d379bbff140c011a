-- ===== src/Wallet/Guard.antt =====
-- What the wallet adds to its enforcer: the events, and storage that follows each payment.
use reth_monmouth.Common.{ℕ, ◌≡◌, refl, if◌then◌else◌, true, ◌++◌, map, arith}
use mathlib.Core.List.{append-nil}
use reth_monmouth.Common.Int.{ℤ, ◌+ℤ◌, ◌≤ℤ◌}
use reth_monmouth.Guardrails.Policy.{Hex, TransactionIntent}
use reth_monmouth.Guardrails.Enforcer
use reth_monmouth.Guardrails.Enforcer.Permission.{spent_today}
use reth_monmouth.Guardrails.Enforcer.Recorded.{
  record_spend-validate, validate-policy, spent_today-validate,
}
use reth_monmouth.Wallet.{
  MonmouthWallet, WalletEvent, validate_transaction, prepare_transaction, record_transaction,
  check_session, destroy,
}

-- A payment that was allowed and is recorded at the same time adds its value to the day's
-- spending, keeps the daily limit, leaves the policy alone and tells each listener its hash.
pub record_transaction-validate :
    (now : ℕ) (intent : TransactionIntent) (hash : Hex) (w : MonmouthWallet)
    → (validate_transaction now intent w).0.allowed ≡ true
    → let w' = record_transaction now hash intent.value (validate_transaction now intent w).1 in
      (spent_today now w'.enforcer ≡ spent_today now w.enforcer +ℤ intent.value)
      × (spent_today now w'.enforcer ≤ℤ w.enforcer.policy.max_per_day)
      × (w'.enforcer.policy ≡ w.enforcer.policy)
      × (w'.delivered
          ≡ w.delivered ++ map (λ l. (l, WalletEvent.transaction_sent hash)) w.listeners)
unfolding validate_transaction record_transaction
record_transaction-validate now intent hash w h =
    let (sum, fits, kept) = record_spend-validate now intent w.enforcer h in (sum, fits, kept, refl)

-- `prepareTransaction` announces a refusal, with the reason, to every listener, and announces
-- nothing when the intent is permitted; the connection, the policy, the storage and what was spent
-- stay.
pub prepare_transaction_lem :
    (now : ℕ) (intent : TransactionIntent) (w : MonmouthWallet)
    → let (result, w') = prepare_transaction now intent w in
      (result ≡ (Enforcer.validate now intent w.enforcer).0)
      × (w'.delivered ≡ (
          if result.allowed
          then w.delivered
          else w.delivered
            ++ map (λ l. (l, WalletEvent.transaction_blocked intent result.reason)) w.listeners))
      × (w'.connected_address ≡ w.connected_address)
      × (w'.storage ≡ w.storage)
      × (w'.enforcer.policy ≡ w.enforcer.policy)
      × (spent_today now w'.enforcer ≡ spent_today now w.enforcer)
unfolding prepare_transaction
prepare_transaction_lem now intent w =
    ground
      (arith, validate-policy now intent w.enforcer, spent_today-validate now now intent w.enforcer)

-- After `destroy` nobody is told anything: not by the session timer, and not by a payment.
pub destroy_silences :
    (now : ℕ) (hash : Hex) (value : ℤ) (w : MonmouthWallet)
    → (check_session now (destroy w) ≡ destroy w)
      × ((record_transaction now hash value (destroy w)).delivered ≡ w.delivered)
unfolding check_session destroy record_transaction
destroy_silences now hash value w = (refl, append-nil w.delivered)
