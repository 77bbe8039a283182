-- ===== src/Models/Payment.antt =====
-- app/models/payment.py: payment intents, transactions, and the values of their status columns.
--
-- A UUID is the number that it stands for. A status column holds the value of a member of its
-- enumeration, since every write of the program stores one. `updated_at` is in microseconds.
use payment_gateway_system.Prelude.{ℕ, String, Bool, true, false, Option}
use payment_gateway_system.Prelude.Int.{ℤ}

abbrev pub Uuid : Type 0
Uuid = ℕ

pub data PaymentStatus : Type 0 where
  created processing success failed : PaymentStatus

pub data TransactionState : Type 0 where
  initiated pending success failed : TransactionState

pub data PaymentMethod : Type 0 where
  upi card netbanking : PaymentMethod

abbrev pub eq_status : PaymentStatus → PaymentStatus → Bool
eq_status PaymentStatus.created PaymentStatus.created = true
eq_status PaymentStatus.processing PaymentStatus.processing = true
eq_status PaymentStatus.success PaymentStatus.success = true
eq_status PaymentStatus.failed PaymentStatus.failed = true
eq_status _ _ = false

abbrev pub eq_state : TransactionState → TransactionState → Bool
eq_state TransactionState.initiated TransactionState.initiated = true
eq_state TransactionState.pending TransactionState.pending = true
eq_state TransactionState.success TransactionState.success = true
eq_state TransactionState.failed TransactionState.failed = true
eq_state _ _ = false

abbrev pub is_upi : PaymentMethod → Bool
is_upi PaymentMethod.upi = true
is_upi _ = false

-- The value of a status, as it stands in the column and in a response.
abbrev pub status_value : PaymentStatus → String
status_value PaymentStatus.created = "CREATED"
status_value PaymentStatus.processing = "PROCESSING"
status_value PaymentStatus.success = "SUCCESS"
status_value PaymentStatus.failed = "FAILED"

abbrev pub state_value : TransactionState → String
state_value TransactionState.initiated = "INITIATED"
state_value TransactionState.pending = "PENDING"
state_value TransactionState.success = "SUCCESS"
state_value TransactionState.failed = "FAILED"

pub record PaymentIntent : Type 0 where
  pub id : Uuid
  pub public_id : String
  pub merchant_id : Uuid
  pub amount : ℤ
  pub currency : String
  pub status : PaymentStatus
  pub idempotency_key : String
  pub description : Option String
  pub updated_at : ℕ

pub record Transaction : Type 0 where
  pub id : Uuid
  pub public_id : String
  pub intent_id : Uuid
  pub vpa : String
  pub payment_method : PaymentMethod
  pub state : TransactionState
  pub psp_reference : Option String
