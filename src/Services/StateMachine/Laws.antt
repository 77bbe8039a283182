-- ===== src/Services/StateMachine/Laws.antt =====
-- What the guards of app/services/state_machine.py let through, against the diagrams of the
-- lifecycles drawn as relations.
use payment_gateway_system.Prelude.{ℕ, zero, suc, ◌+◌, ◌≤◌, ◌≡◌, refl, ◌↔◌, arith}
use payment_gateway_system.Models.Payment.{PaymentStatus, TransactionState}
use payment_gateway_system.Session.{ok}
use payment_gateway_system.Services.StateMachine.{
  assert_intent_transition, assert_transaction_transition,
}

-- The lifecycle of an intent.
pub data IntentStep : PaymentStatus → PaymentStatus → Type 0 where
  begin : IntentStep PaymentStatus.created PaymentStatus.processing
  settle : IntentStep PaymentStatus.processing PaymentStatus.success
  reject : IntentStep PaymentStatus.processing PaymentStatus.failed

-- The lifecycle of a transaction.
pub data TransactionStep : TransactionState → TransactionState → Type 0 where
  begin : TransactionStep TransactionState.initiated TransactionState.pending
  settle : TransactionStep TransactionState.pending TransactionState.success
  reject : TransactionStep TransactionState.pending TransactionState.failed

ruleset intent_steps = (IntentStep.begin, IntentStep.settle, IntentStep.reject)

ruleset transaction_steps = (TransactionStep.begin, TransactionStep.settle, TransactionStep.reject)

intent-sound : (s t : PaymentStatus) → assert_intent_transition s t ≡ ok tt → IntentStep s t
unfolding assert_intent_transition
intent-sound s t h = grind (arith, intent_steps)

intent_complete : {s t : PaymentStatus} → IntentStep s t → assert_intent_transition s t ≡ ok tt
unfolding assert_intent_transition
intent_complete IntentStep.begin = refl
intent_complete IntentStep.settle = refl
intent_complete IntentStep.reject = refl

transaction-sound :
    (s t : TransactionState) → assert_transaction_transition s t ≡ ok tt → TransactionStep s t
unfolding assert_transaction_transition
transaction-sound s t h = grind (arith, transaction_steps)

transaction_complete :
    {s t : TransactionState} → TransactionStep s t → assert_transaction_transition s t ≡ ok tt
unfolding assert_transaction_transition
transaction_complete TransactionStep.begin = refl
transaction_complete TransactionStep.settle = refl
transaction_complete TransactionStep.reject = refl

-- The guard of an intent lets exactly the edges of its lifecycle through: created to processing,
-- and processing to success or to failed.
pub assert_intent_transition_iff :
    (s t : PaymentStatus) → (assert_intent_transition s t ≡ ok tt) ↔ IntentStep s t
assert_intent_transition_iff s t = (intent-sound s t, intent_complete)

-- The guard of a transaction lets exactly the edges of its lifecycle through: initiated to pending,
-- and pending to success or to failed.
pub assert_transaction_transition_iff :
    (s t : TransactionState) → (assert_transaction_transition s t ≡ ok tt) ↔ TransactionStep s t
assert_transaction_transition_iff s t = (transaction-sound s t, transaction_complete)

-- A history of an intent: each change of status passed the guard.
pub data Accepted : PaymentStatus → ℕ → PaymentStatus → Type 0 where
  stop : {s : PaymentStatus} → Accepted s zero s
  next :
      {s t u : PaymentStatus} {n : ℕ}
      → assert_intent_transition s t ≡ ok tt
      → Accepted t n u
      → Accepted s (suc n) u

abbrev pub rank : PaymentStatus → ℕ
rank PaymentStatus.created = 0
rank PaymentStatus.processing = 1
rank PaymentStatus.success = 2
rank PaymentStatus.failed = 2

rank-step : {s t : PaymentStatus} → IntentStep s t → rank t ≡ suc (rank s)
rank-step IntentStep.begin = refl
rank-step IntentStep.settle = refl
rank-step IntentStep.reject = refl

rank-le : (s : PaymentStatus) → rank s ≤ 2
rank-le s = ground arith

rank-history : {s u : PaymentStatus} {n : ℕ} → Accepted s n u → n + rank s ≡ rank u
rank-history stop = omega arith
rank-history (next {s} {t} h rest) =
    omega (arith, rank-history rest, rank-step (intent-sound s t h))

-- Whatever changes of status the guard accepts one after the other: the rank (0 for created, 1 for
-- processing, 2 for success and failed) counts them, and there are two at most.
pub history_bounded :
    {s u : PaymentStatus} {n : ℕ} → Accepted s n u → (n + rank s ≡ rank u) × (n ≤ 2)
history_bounded {s} {u} h = (rank-history h, omega (arith, rank-history h, rank-le u))

-- A history that starts at success or at failed, the statuses of rank two, stays there.
pub final_status_stays : {s u : PaymentStatus} {n : ℕ} → Accepted s n u → rank s ≡ 2 → u ≡ s
final_status_stays stop e = refl
final_status_stays (next {s} {t} {u} h rest) e =
    absurd (omega (arith, rank-step (intent-sound s t h), rank-history rest, rank-le u))
