-- ===== src/Services/Webhook/Posting.antt =====
-- The ledger lines of a callback (app/services/webhook.py) against the posting service
-- (app/services/ledger.py), which they repeat.
use payment_gateway_system.Prelude.{String, ◌≡◌, refl, sym, false, none, some, arith}
use payment_gateway_system.Prelude.Int.{ℤ, pos, leb_ℤ, ◌≤ℤ◌}
use payment_gateway_system.Models.Payment.{Uuid, PaymentIntent, Transaction}
use payment_gateway_system.Models.Ledger.{AccountType, default_currency}
use payment_gateway_system.Session.{Session, Result, ok, err, M, ◌>>=◌, ◌>>◌, pure, continue}
use payment_gateway_system.Services.Ledger.{
  PostingKeys, merchant_identifier, get_or_create_account, post_double_entry,
}
use payment_gateway_system.Services.Webhook.{ensure_account_locked, settle}

module _ {A B C : Type 0} (F : A → M B) (g : B → M C) (G : A → M C)
    (same : (a : A) (t : Session) → (F a >>= g) t ≡ G a t) where
  continue_assoc :
      (r : Result A) (t : Session)
      → continue (continue r F t).0 g (continue r F t).1 ≡ continue r G t
  unfolding ◌>>=◌
  continue_assoc (ok a) t = same a t
  continue_assoc (err e) t = refl

  bind_assoc : (m : M A) (s : Session) → ((m >>= F) >>= g) s ≡ (m >>= G) s
  unfolding ◌>>=◌
  bind_assoc m s = continue_assoc (m s).0 (m s).1

positive : (a : ℤ) → ¬ (a ≤ℤ pos 0) → leb_ℤ a (pos 0) ≡ false
positive a h = ground arith

-- For a positive amount the ledger lines of a success are those of the posting service, called for
-- the payer of the transaction, the merchant of the intent and the default currency: from every
-- session both end in the same session, or raise the same exception.
pub settle-post_double_entry :
    (uuid_str : Uuid → String) (keys : PostingKeys) (txn : Transaction) (intent : PaymentIntent)
    (amount : ℤ) (s : Session)
    → ¬ (amount ≤ℤ pos 0)
    → settle uuid_str keys txn intent amount s
      ≡ (post_double_entry uuid_str keys txn txn.vpa intent.merchant_id amount default_currency
            >> pure tt)
          s
unfolding settle post_double_entry get_or_create_account ensure_account_locked ◌>>=◌
settle-post_double_entry uuid_str keys txn intent amount s h = rw (positive amount h) (
    sym (
      bind_assoc _ (λ r. pure tt) _
        (λ payer t.
          bind_assoc _ (λ r. pure tt) _ (λ merchant u. refl)
            (ensure_account_locked keys.credit_account AccountType.merchant_settlement
              (merchant_identifier uuid_str intent.merchant_id) (some intent.merchant_id))
            t)
        (ensure_account_locked keys.debit_account AccountType.virtual txn.vpa none) s))
