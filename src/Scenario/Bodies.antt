-- ===== src/Scenario/Bodies.antt =====
-- Bodies of requests, and an address that is too long for a ledger account.
use payment_gateway_system.Prelude.{
  String, refl, ◌≡◌, ◌≢◌, subst, some, none, [], ◌∷◌, str_eq, if◌then◌else◌, Bool-cases, inl, inr,
  ◌<◌, ◌+◌, ◌^◌, arith,
}
use payment_gateway_system.Prelude.Int.{ℤ, pos, pos_part, neg_part}
use payment_gateway_system.Prelude.Rows.{select, all, any, distinct}
use payment_gateway_system.Models.Payment.{Transaction}
use payment_gateway_system.Models.Database.{
  Db, empty_db, fits_columns, fits, fits_optional, fits_transaction, fits_intent, fits_money,
  unique_keys, unique_merchants, unique_accounts, unique_intents, unique_transactions,
}
use payment_gateway_system.Session.{err, data_error, with_session, ok}
use payment_gateway_system.Services.Order.{create_order}
use payment_gateway_system.Services.Webhook.{fixed, process_bank_callback}
use payment_gateway_system.Services.Webhook.LongAddress.{long_address_fails}
use payment_gateway_system.Schemas.{
  Validation, IsValidation, OrderBody, has_length, validate_order, UpiBody, has_at, validate_upi,
}
use payment_gateway_system.Schemas.Columns.{validated_order_fits}
use payment_gateway_system.Scenario.Data.{
  sample_uuid_str, order_draws, order_request, processing_intent, txn, initiated, keys,
  payment_draws, payment_request, ordered, intent,
}
use payment_gateway_system.Services.Payment.{new_transaction, initiated_response, initiate_upi}
use payment_gateway_system.Schemas.Payments.{started, validated_payment_starts}

-- A field that reads one text.
abbrev pub validation : Validation
validation = record {
  decimal = λ t. if str_eq t "1250.00" then some (pos 12500000) else none;
  strip = λ t. t;
  lower = λ t. t;
}

validation-IsValidation : IsValidation validation
validation-IsValidation = record {
  positive = λ t a h. subst (λ (x : ℤ). neg_part x < pos_part x) (read_amount t a h) (omega arith);
  digits = λ t a h.
      subst (λ (x : ℤ). pos_part x + neg_part x < 10 ^ 18) (read_amount t a h) (omega arith);
}
  where
    read_amount : (t : String) (a : ℤ) → validation.decimal t ≡ some a → pos 12500000 ≡ a
    read_amount t a h = elim (Bool-cases (str_eq t "1250.00")) [
      | inl e ↦ cc (rw e at h)
      | inr e ↦ cc (rw e at h)
    ]

abbrev pub order_body : OrderBody
order_body = record {
  idempotency_key = "idem-0001";
  amount = "1250.00";
  currency = none;
  description = none;
}

validated : validate_order validation order_body ≡ some order_request
unfolding validate_order has_length
validated = refl

validated_order_fits_example :
    (with_session (create_order order_draws 7 order_request) empty_db).0 ≢ err data_error
unfolding fits fits_columns all
validated_order_fits_example =
    validated_order_fits validation order_body order_draws 7 order_request empty_db
      validation-IsValidation validated refl refl

-- 129 characters before the handle.
abbrev long_address : String
long_address =
    "aaaaaaaaaaaaaaaaaaaaaaaaaaaaaaaaaaaaaaaaaaaaaaaaaaaaaaaaaaaaaaaaaaaaaaaaaaaaaaaaaaaaaaaaaaaaaaaaaaaaaaaaaaaaaaaaaaaaaaaaaaaaaaaaa@upi"

abbrev long_txn : Transaction
long_txn = record txn { vpa = long_address }

abbrev long_db : Db
long_db = record initiated { transactions = long_txn ∷ [] }

long_address_fails_example :
    with_session
      (process_bank_callback sample_uuid_str keys 1300 "payment.success" "psp_c1"
        (fixed (pos 12500000)))
      long_db
    ≡ (err data_error, long_db)
unfolding select
long_address_fails_example =
    long_address_fails sample_uuid_str keys 1300 "psp_c1" (fixed (pos 12500000)) long_txn
      processing_intent long_db (record { transaction = refl; owner = refl }) refl
      (record { pending = refl; processing = refl }) (omega arith)

abbrev pub upi_body : UpiBody
upi_body = record { idempotency_key = "idem-0002"; order_id = "ord_a1"; vpa = "payer@upi" }

accepted_body : validate_upi validation upi_body ≡ some payment_request
unfolding validate_upi has_length has_at
accepted_body = refl

validated_payment_starts_example :
    with_session (initiate_upi payment_draws 7 payment_request) ordered ≡ (
      ok (initiated_response intent (new_transaction payment_draws intent "payer@upi")),
      started payment_draws intent "payer@upi" ordered,
    )
unfolding select any all fits fits_optional fits_money fits_intent fits_transaction fits_columns
    unique_keys unique_merchants unique_accounts unique_intents unique_transactions distinct
validated_payment_starts_example =
    validated_payment_starts validation upi_body payment_draws 7 payment_request intent ordered
      accepted_body (record { order = refl; created = refl; unpaid = refl })
      (record { key = refl; token = refl; short = refl; short_psp = refl }) refl refl
