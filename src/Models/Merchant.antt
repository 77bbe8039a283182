-- ===== src/Models/Merchant.antt =====
-- app/models/merchant.py and app/models/webhook_delivery.py: merchants, and the outbox of the
-- notifications to them.
use payment_gateway_system.Prelude.{ℕ, String, Bool, Option}
use payment_gateway_system.Models.Payment.{Uuid}

pub record Merchant : Type 0 where
  pub id : Uuid
  pub name : String
  pub api_key_hash : String
  pub secret_hash : String
  pub is_active : Bool
  pub webhook_url : Option String

pub data DeliveryState : Type 0 where
  pending delivered failed : DeliveryState

pub record WebhookDelivery : Type 0 where
  pub id : Uuid
  pub transaction_id : Uuid
  pub merchant_id : Uuid
  pub url : String
  pub payload : String
  pub signature : String
  pub state : DeliveryState
  pub attempts : ℕ
  pub last_error : Option String
  pub delivered_at : Option ℕ
