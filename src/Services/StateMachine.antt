-- ===== src/Services/StateMachine.antt =====
-- app/services/state_machine.py: the permitted transitions of an intent and of a transaction.
pub mod Laws
use payment_gateway_system.Prelude.{Bool, true, false, ◌||◌, List, [], ◌∷◌, if◌then◌else◌}
use payment_gateway_system.Prelude.Rows.{any}
use payment_gateway_system.Models.Payment.{PaymentStatus, TransactionState, eq_status, eq_state}
use payment_gateway_system.Session.{Result, ok, err, invalid_state_transition}

-- `PAYMENT_INTENT_TRANSITIONS`
abbrev pub payment_intent_transitions : PaymentStatus → List PaymentStatus
payment_intent_transitions PaymentStatus.created = PaymentStatus.processing ∷ []
payment_intent_transitions PaymentStatus.processing =
    PaymentStatus.success ∷ PaymentStatus.failed ∷ []
payment_intent_transitions PaymentStatus.success = []
payment_intent_transitions PaymentStatus.failed = []

-- `TRANSACTION_TRANSITIONS`
abbrev pub transaction_transitions : TransactionState → List TransactionState
transaction_transitions TransactionState.initiated = TransactionState.pending ∷ []
transaction_transitions TransactionState.pending =
    TransactionState.success ∷ TransactionState.failed ∷ []
transaction_transitions TransactionState.success = []
transaction_transitions TransactionState.failed = []

unfoldable pub assert_intent_transition : PaymentStatus → PaymentStatus → Result (Unit {0})
unfolding any
assert_intent_transition current target =
    if any (eq_status target) (payment_intent_transitions current)
    then ok tt
    else err invalid_state_transition

unfoldable pub assert_transaction_transition :
    TransactionState → TransactionState → Result (Unit {0})
unfolding any
assert_transaction_transition current target =
    if any (eq_state target) (transaction_transitions current)
    then ok tt
    else err invalid_state_transition
