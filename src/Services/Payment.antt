-- ===== src/Services/Payment.antt =====
-- app/services/payment.py: the start of a UPI payment for an order.
pub mod Orders
pub mod Branches
pub mod Replay
pub mod Rules
use payment_gateway_system.Prelude.{
  ℕ, String, Bool, ◌&&◌, ◌||◌, not, Option, none, some, ◌∷◌, ◌==◌, str_eq,
}
use payment_gateway_system.Prelude.Rows.{select, update}
use payment_gateway_system.Models.Payment.{
  Uuid, PaymentStatus, TransactionState, PaymentMethod, PaymentIntent, Transaction, eq_status,
  is_upi, state_value,
}
use payment_gateway_system.Models.Database.{Db}
use payment_gateway_system.Core.Security.{new_id}
use payment_gateway_system.Session.{
  M, ◌>>=◌, ◌>>◌, pure, lift, read, write, guard, or_raise, scalar_one_or_none, commit,
  order_not_found, already_finalised,
}
use payment_gateway_system.Services.StateMachine.{
  assert_intent_transition, assert_transaction_transition,
}

-- `UpiInitiateRequest` and `UpiInitiateResponse` of app/schemas/payment.py.
pub record UpiInitiateRequest : Type 0 where
  pub idempotency_key : String
  pub order_id : String
  pub vpa : String

pub record UpiInitiateResponse : Type 0 where
  pub transaction_id : String
  pub order_id : String
  pub status : String
  pub psp_reference : Option String

-- What a new transaction draws: its key, the tokens of its two references, and the time.
pub record PaymentDraws : Type 0 where
  pub key : Uuid
  pub token : String
  pub psp_token : String
  pub now : ℕ

abbrev pub is_order : String → Uuid → PaymentIntent → Bool
is_order order_id merchant_id i = str_eq i.public_id order_id && (i.merchant_id == merchant_id)

abbrev pub is_duplicate : Uuid → String → Transaction → Bool
is_duplicate intent_id vpa t =
    (t.intent_id == intent_id) && str_eq t.vpa vpa && is_upi t.payment_method

abbrev pub is_final : PaymentStatus → Bool
is_final s = eq_status s PaymentStatus.success || eq_status s PaymentStatus.failed

abbrev pub set_intent_status : Uuid → PaymentStatus → ℕ → Db → Db
set_intent_status key status now db = record db {
  intents =
      update (λ i. i.id == key) (λ i. record i { status = status; updated_at = now }) db.intents;
}

abbrev pub add_transaction : Transaction → Db → Db
add_transaction t db = record db { transactions = t ∷ db.transactions }

abbrev pub new_transaction : PaymentDraws → PaymentIntent → String → Transaction
new_transaction draws intent vpa = record {
  id = draws.key;
  public_id = new_id "txn" draws.token;
  intent_id = intent.id;
  vpa = vpa;
  payment_method = PaymentMethod.upi;
  state = TransactionState.pending;
  psp_reference = some (new_id "psp" draws.psp_token);
}

-- A replay answers `PENDING`, whatever the state of the transaction that it found.
abbrev pub replay_response : PaymentIntent → Transaction → UpiInitiateResponse
replay_response intent t = record {
  transaction_id = t.public_id;
  order_id = intent.public_id;
  status = state_value TransactionState.pending;
  psp_reference = t.psp_reference;
}

abbrev pub initiated_response : PaymentIntent → Transaction → UpiInitiateResponse
initiated_response intent t = record {
  transaction_id = t.public_id;
  order_id = intent.public_id;
  status = state_value t.state;
  psp_reference = t.psp_reference;
}

unfoldable pub start_transaction : PaymentDraws → PaymentIntent → String → M UpiInitiateResponse
start_transaction draws intent vpa = do
  lift (assert_intent_transition intent.status PaymentStatus.processing)
  write (set_intent_status intent.id PaymentStatus.processing draws.now)
  lift (assert_transaction_transition TransactionState.initiated TransactionState.pending)
  write (add_transaction (new_transaction draws intent vpa))
  commit
  pure (initiated_response intent (new_transaction draws intent vpa))

-- The branch on `duplicate`.
unfoldable pub replay_or_start :
    PaymentDraws → PaymentIntent → String → Option Transaction → M UpiInitiateResponse
replay_or_start draws intent vpa (some duplicate) = pure (replay_response intent duplicate)
replay_or_start draws intent vpa none = start_transaction draws intent vpa

unfoldable pub initiate_upi : PaymentDraws → Uuid → UpiInitiateRequest → M UpiInitiateResponse
initiate_upi draws merchant_id payload = do
  orders ← read (λ db. select (is_order payload.order_id merchant_id) db.intents)
  found ← scalar_one_or_none orders
  intent ← or_raise found order_not_found
  guard (not (is_final intent.status)) already_finalised
  duplicates ← read (λ db. select (is_duplicate intent.id payload.vpa) db.transactions)
  duplicate ← scalar_one_or_none duplicates
  replay_or_start draws intent payload.vpa duplicate
