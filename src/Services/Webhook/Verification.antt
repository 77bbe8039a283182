-- ===== src/Services/Webhook/Verification.antt =====
-- `verify_bank_signature` of app/services/webhook.py.
use payment_gateway_system.Prelude.{
  ℕ, String, Bool, true, false, Option, none, some, List, ltb, str_eq, if◌then◌else◌,
}
use payment_gateway_system.Prelude.Int.{ℤ}
use payment_gateway_system.Core.Config.{Settings}
use payment_gateway_system.Core.Security.{Crypto, verify_signature}
use payment_gateway_system.Session.{Result, ok, err, signature_error, timestamp_error}
use payment_gateway_system.Api.BankCallback.{age, microseconds}

-- The test of the number of a timestamp, at the time of the clock in microseconds.
abbrev pub verify_age : Settings → ℕ → Option ℤ → Result (Unit {0})
verify_age settings clock none = err timestamp_error
verify_age settings clock (some ts) =
    if ltb (microseconds settings.webhook_verify_tolerance_seconds) (age clock ts)
    then err timestamp_error
    else ok tt

-- A text that is empty is no timestamp.
abbrev pub verify_timestamp : Settings → (String → Option ℤ) → ℕ → Option String → Result (Unit {0})
verify_timestamp settings parse_int clock none = ok tt
verify_timestamp settings parse_int clock (some t) =
    if str_eq t "" then ok tt else verify_age settings clock (parse_int t)

abbrev pub require_signature : Result Bool → Result (Unit {0})
require_signature (ok true) = ok tt
require_signature (ok false) = err signature_error
require_signature (err e) = err e

abbrev pub after_timestamp : Result (Unit {0}) → Result Bool → Result (Unit {0})
after_timestamp (ok u) signature = require_signature signature
after_timestamp (err e) signature = err e

unfoldable pub verify_bank_signature :
    Crypto
    → Settings
    → (String → Option ℤ)
    → ℕ
    → List ℕ
    → String
    → Option String
    → Result (Unit {0})
verify_bank_signature crypto settings parse_int clock payload signature timestamp =
    after_timestamp (verify_timestamp settings parse_int clock timestamp)
      (verify_signature crypto payload settings.psp_webhook_secret signature)
