-- ===== src/Services/Webhook/Atomic.antt =====
-- A callback that raises has changed nothing (app/services/webhook.py).
use payment_gateway_system.Prelude.{ℕ, String, ◌≡◌, ap, sym, ◌∙◌}
use payment_gateway_system.Models.Payment.{Uuid}
use payment_gateway_system.Models.Database.{Db}
use payment_gateway_system.Session.{Result, Error, err, with_session}
use payment_gateway_system.Session.Triples.{Triple-Durable, with_session-Ends}
use payment_gateway_system.Services.Ledger.{PostingKeys}
use payment_gateway_system.Services.Webhook.{Decimal, CallbackResult, process_bank_callback}
use payment_gateway_system.Services.Webhook.Rules.{callback-Triple, settle-keeps}

-- A callback that raises any exception, also one of the database, leaves the database as it was.
pub process_bank_callback_atomic :
    (uuid_str : Uuid → String) (keys : PostingKeys) (now : ℕ) (event ref : String)
    (amount : Decimal) (db : Db) {e : Error} {db' : Db}
    → with_session (process_bank_callback uuid_str keys now event ref amount) db ≡ (err e, db')
    → db' ≡ db
process_bank_callback_atomic uuid_str keys now event ref amount db {e} {db'} h =
    sym (ap (λ (p : Result CallbackResult × Db). p.1) h)
    ∙ (with_session-Ends {I = λ d. Unit {0}} {J = λ d. Unit {0}} _ db
          (Triple-Durable _ (
            callback-Triple db (λ d. Unit) uuid_str keys
              (settle-keeps db (λ d. Unit) (λ a b d u. tt) uuid_str keys) (λ t s d u. tt)
              (λ i s n d u. tt) now event ref amount))
          tt tt).1
        e (ap (λ (p : Result CallbackResult × Db). p.0) h)
