-- ===== src/AgentWallet/Send.antt =====
-- `AgentWallet.sendTransaction`: what one call records, what a history of calls spends, and what two
-- calls do that overlap while the adapter works.
use reth_monmouth.Common.{
  ℕ, ◌≡◌, refl, ap, ◌∙◌, sym, inl, inr, Bool, true, ◌&&◌, Option, none, some, List, [], ◌∷◌, arith,
  or_else, Bool-cases, All,
}
use reth_monmouth.Common.Int.{ℤ, pos, ◌+ℤ◌, ◌≤ℤ◌, int_laws}
use reth_monmouth.Common.Text.{Text}
use reth_monmouth.Guardrails.Enforcer.{current_day}
use reth_monmouth.AgentWallet.{
  AgentWallet, TransactionIntent, UniversalTransaction, SendResult, intent_of, emit, persist_state,
  check_day_reset, record_spend, validate_transaction, begin_send, finish_send, send_transaction,
}
use reth_monmouth.AgentWallet.Permission.{
  IsPermitted, spent_today, check_day_reset-policy, check_day_reset-spent, validate_transaction_iff,
  validate_transaction_accepted,
}

-- `tx.value ?? 0n`
abbrev pub value_of : UniversalTransaction → ℤ
value_of tx = or_else tx.value (pos 0)

-- What a call costs, by how it ends.
abbrev pub charged : UniversalTransaction → SendResult → ℤ
charged tx (SendResult.sent hash) = value_of tx
charged tx SendResult.blocked = pos 0
charged tx SendResult.adapter_failed = pos 0

check_day_reset-day :
    (now : ℕ) (w : AgentWallet) → (check_day_reset now w).last_spend_day ≡ current_day now
unfolding check_day_reset emit persist_state
check_day_reset-day now w = ground arith

reset-spent_today :
    (now later : ℕ) (w : AgentWallet)
    → current_day later ≡ current_day now
    → spent_today later (check_day_reset now w) ≡ spent_today now w
reset-spent_today now later w same =
    ground (arith, check_day_reset-day now w, check_day_reset-spent now w)

refused-spent_today :
    (now later : ℕ) (intent : TransactionIntent) (w : AgentWallet)
    → current_day later ≡ current_day now
    → spent_today later (validate_transaction now intent w).1 ≡ spent_today now w
unfolding validate_transaction
refused-spent_today now later intent w same = ground (arith, reset-spent_today now later w same)

begin_send-spent_today :
    (now later : ℕ) (tx : UniversalTransaction) (w : AgentWallet)
    → current_day later ≡ current_day now
    → spent_today later (begin_send now tx w).1 ≡ spent_today now w
unfolding begin_send emit
begin_send-spent_today now later tx w same =
    ground (arith, refused-spent_today now later (intent_of tx) w same)

finish_send_state :
    (now : ℕ) (tx : UniversalTransaction) (hash : Text) (w : AgentWallet)
    → let w' = finish_send now tx hash w in
      (w'.daily_spent ≡ spent_today now w +ℤ value_of tx)
      × (w'.last_spend_day ≡ current_day now)
      × (w'.policy ≡ w.policy)
unfolding finish_send record_spend emit persist_state
finish_send_state now tx hash w =
    ground
      (arith, check_day_reset-spent now w, check_day_reset-day now w, check_day_reset-policy now w)

finish_send-spent_today :
    (now : ℕ) (tx : UniversalTransaction) (hash : Text) (w : AgentWallet)
    → spent_today now (finish_send now tx hash w) ≡ spent_today now w +ℤ value_of tx
finish_send-spent_today now tx hash w = ground (arith, finish_send_state now tx hash w)

begin_send-called :
    (now : ℕ) (tx : UniversalTransaction) (w : AgentWallet)
    → (begin_send now tx w).0 ≡ (validate_transaction now (intent_of tx) w).0.allowed
unfolding begin_send
begin_send-called now tx w = ground arith

begin_send-true :
    (now : ℕ) (tx : UniversalTransaction) (w : AgentWallet)
    → (begin_send now tx w).0 ≡ true
    → begin_send now tx w ≡ (true, check_day_reset now w)
unfolding begin_send
begin_send-true now tx w h =
    let called = sym (begin_send-called now tx w) ∙ h in
    ground (arith, validate_transaction_accepted now (intent_of tx) w called)

plus_zero : (a : ℤ) → a +ℤ pos 0 ≡ a
plus_zero a = grind int_laws

-- A call that is answered on the day it is made adds to that day's spending exactly the value of a
-- transaction that was sent, and nothing when the guardrails block it or the adapter fails.
pub send_transaction-charged :
    (now later : ℕ) (tx : UniversalTransaction) (reply : Option Text) (w : AgentWallet)
    → current_day later ≡ current_day now
    → let (result, w') = send_transaction now later tx reply w in
      spent_today later w' ≡ spent_today now w +ℤ charged tx result
unfolding send_transaction
send_transaction-charged now later tx none w same = elim (Bool-cases (begin_send now tx w).0) [
  | inl called ↦
      ground (arith, begin_send-spent_today now later tx w same, plus_zero (spent_today now w))
  | inr other ↦
      ground (arith, begin_send-spent_today now later tx w same, plus_zero (spent_today now w))
]
send_transaction-charged now later tx (some hash) w same =
    elim (Bool-cases (begin_send now tx w).0) [
      | inl called ↦ rw called (
          finish_send-spent_today later tx hash (begin_send now tx w).1
          ∙ ap (λ s. s +ℤ value_of tx) (begin_send-spent_today now later tx w same))
      | inr other ↦
          ground (arith, begin_send-spent_today now later tx w same, plus_zero (spent_today now w))
    ]

-- The spending that the wallet holds is between zero and the daily limit.
abbrev pub WithinBudget : AgentWallet → Type 0
WithinBudget w = (pos 0 ≤ℤ w.daily_spent) × (w.daily_spent ≤ℤ w.policy.max_per_day)

reset-WithinBudget :
    (now : ℕ) (w : AgentWallet) → WithinBudget w → WithinBudget (check_day_reset now w)
reset-WithinBudget now w h =
    ground (arith, check_day_reset-policy now w, check_day_reset-spent now w)

begin_send-WithinBudget :
    (now : ℕ) (tx : UniversalTransaction) (w : AgentWallet)
    → WithinBudget w
    → WithinBudget (begin_send now tx w).1
unfolding begin_send validate_transaction emit
begin_send-WithinBudget now tx w h = ground (arith, reset-WithinBudget now w h)

-- The day of the answer does not matter: on a new day only the value itself is held.
sent-WithinBudget :
    (now later : ℕ) (tx : UniversalTransaction) (hash : Text) (w : AgentWallet)
    → pos 0 ≤ℤ value_of tx
    → WithinBudget w
    → (begin_send now tx w).0 ≡ true
    → WithinBudget (finish_send later tx hash (begin_send now tx w).1)
sent-WithinBudget now later tx hash w sign within called =
    let w' = check_day_reset now w in
    let permitted =
      (validate_transaction_iff now (intent_of tx) w).0
        (sym (begin_send-called now tx w) ∙ called) in
    let (spent, _, policy) = finish_send_state later tx hash w' in
    rw (begin_send-true now tx w called, spent, policy, check_day_reset-policy now w)
      (grind (
        int_laws,
        permitted.within_day,
        check_day_reset-spent now w,
        check_day_reset-day now w,
        within,
        sign,
      ))

send_transaction-WithinBudget :
    (now later : ℕ) (tx : UniversalTransaction) (reply : Option Text) (w : AgentWallet)
    → pos 0 ≤ℤ value_of tx
    → WithinBudget w
    → WithinBudget (send_transaction now later tx reply w).1
unfolding send_transaction
send_transaction-WithinBudget now later tx none w sign within =
    elim (Bool-cases (begin_send now tx w).0) [
      | inl called ↦ rw called (begin_send-WithinBudget now tx w within)
      | inr other ↦ rw other (begin_send-WithinBudget now tx w within)
    ]
send_transaction-WithinBudget now later tx (some hash) w sign within =
    elim (Bool-cases (begin_send now tx w).0) [
      | inl called ↦ rw called (sent-WithinBudget now later tx hash w sign within called)
      | inr other ↦ rw other (begin_send-WithinBudget now tx w within)
    ]

-- One call of `sendTransaction`: when it is made, when it is answered, and by what.
pub record Call : Type 0 where
  pub made : ℕ
  pub answered : ℕ
  pub tx : UniversalTransaction
  pub reply : Option Text

-- One call after the other.
unfoldable pub send_all : List Call → AgentWallet → AgentWallet
send_all [] w = w
send_all (c ∷ calls) w = send_all calls (send_transaction c.made c.answered c.tx c.reply w).1

-- However many transactions are sent one after the other, at whatever times and with whatever answers,
-- the spending that the wallet holds stays between zero and the daily limit, if it starts there and no
-- value is negative.
pub send_all-WithinBudget :
    (calls : List Call) (w : AgentWallet)
    → All (λ c. pos 0 ≤ℤ value_of c.tx) calls
    → WithinBudget w
    → WithinBudget (send_all calls w)
unfolding send_all
send_all-WithinBudget [] w signs within = within
send_all-WithinBudget (c ∷ calls) w (sign, signs) within =
    send_all-WithinBudget calls _ signs
      (send_transaction-WithinBudget c.made c.answered c.tx c.reply w sign within)

-- The wallet after two calls that overlap: the second is checked before the first is answered.
unfoldable pub overlap :
    ℕ
    → ℕ
    → UniversalTransaction
    → UniversalTransaction
    → Text
    → Text
    → AgentWallet
    → Bool × AgentWallet
overlap now later tx1 tx2 hash1 hash2 w =
    let (called1, w1) = begin_send now tx1 w in
    let (called2, w2) = begin_send now tx2 w1 in
    (called1 && called2, finish_send later tx2 hash2 (finish_send later tx1 hash1 w2))

reset_IsPermitted :
    (now : ℕ) (tx : UniversalTransaction) (w : AgentWallet)
    → IsPermitted now (intent_of tx) w
    → IsPermitted now (intent_of tx) (check_day_reset now w)
reset_IsPermitted now tx w p = record {
  active = rw (check_day_reset-policy now w) p.active;
  deploys = rw (check_day_reset-policy now w) p.deploys;
  within_transaction = rw (check_day_reset-policy now w) p.within_transaction;
  within_day = rw (check_day_reset-policy now w, reset-spent_today now now w refl) p.within_day;
  not_blocked = rw (check_day_reset-policy now w) p.not_blocked;
  listed = rw (check_day_reset-policy now w) p.listed;
  selector = rw (check_day_reset-policy now w) p.selector;
}

permitted_begin :
    (now : ℕ) (tx : UniversalTransaction) (w : AgentWallet)
    → IsPermitted now (intent_of tx) w
    → begin_send now tx w ≡ (true, check_day_reset now w)
permitted_begin now tx w p =
    begin_send-true now tx w
      (begin_send-called now tx w ∙ (validate_transaction_iff now (intent_of tx) w).1 p)

-- Two overlapping calls, made at the same time and answered on the same day, each permitted by the
-- wallet as it stands, both reach the adapter, and both values are charged to the day: nothing checks
-- their sum against the daily limit.
pub overlap_charges_both :
    (now later : ℕ) (tx1 tx2 : UniversalTransaction) (hash1 hash2 : Text) (w : AgentWallet)
    → IsPermitted now (intent_of tx1) w
    → IsPermitted now (intent_of tx2) w
    → current_day later ≡ current_day now
    → let (called, w') = overlap now later tx1 tx2 hash1 hash2 w in
      (called ≡ true) × (spent_today later w' ≡ spent_today now w +ℤ value_of tx1 +ℤ value_of tx2)
unfolding overlap
overlap_charges_both now later tx1 tx2 hash1 hash2 w p1 p2 same =
    let w1 = check_day_reset now w in
    let w2 = check_day_reset now w1 in
    let w3 = finish_send later tx1 hash1 w2 in
    let first = permitted_begin now tx1 w p1 in
    let second = permitted_begin now tx2 w1 (reset_IsPermitted now tx2 w p2) in
    let start = reset-spent_today now later w1 same ∙ reset-spent_today now now w refl in
    rw (first, second)
      (
        refl,
        finish_send-spent_today later tx2 hash2 w3
            ∙ ap (λ s. s +ℤ value_of tx2)
                (finish_send-spent_today later tx1 hash1 w2 ∙ ap (λ s. s +ℤ value_of tx1) start),
      )
