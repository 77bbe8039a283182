-- ===== src/Api/Merchants.antt =====
-- app/api/v1/merchants.py: a new merchant with its credentials, and the exchange of the credentials
-- for an access token.
pub mod Rules
use payment_gateway_system.Prelude.{
  ℕ, ◌*◌, String, Bool, true, Option, none, some, ◌∷◌, if◌then◌else◌,
}
use payment_gateway_system.Prelude.Rows.{select}
use payment_gateway_system.Models.Payment.{Uuid}
use payment_gateway_system.Models.Merchant.{Merchant}
use payment_gateway_system.Models.Database.{Db}
use payment_gateway_system.Core.Security.{
  Credentials, derive_key, verify_credential, create_access_token,
}
use payment_gateway_system.Session.{
  M, ◌>>=◌, ◌>>◌, pure, lift, read, write, commit, scalar_one_or_none,
}
use payment_gateway_system.Api.Answer.{Answer, rejected, replied}
use payment_gateway_system.Api.Auth.{AuthEnvironment, has_key_hash}

-- `MerchantCreateRequest` and `MerchantCreateResponse` of app/schemas/merchant.py.
pub record MerchantCreateRequest : Type 0 where
  pub name : String
  pub webhook_url : Option String

pub record MerchantCreateResponse : Type 0 where
  pub merchant_id : Uuid
  pub api_key : String
  pub api_secret : String

-- The username and the password of `OAuth2PasswordRequestForm`.
pub record TokenForm : Type 0 where
  pub username : String
  pub password : String

pub record TokenResponse : Type 0 where
  pub access_token : String
  pub token_type : String
  pub expires_in : ℕ

abbrev pub add_merchant : Merchant → Db → Db
add_merchant m db = record db { merchants = m ∷ db.merchants }

module _ (env : AuthEnvironment) where
  abbrev pub new_merchant : Uuid → Credentials → MerchantCreateRequest → Merchant
  new_merchant key drawn payload = record {
    id = key;
    name = payload.name;
    api_key_hash = derive_key env.crypto env.settings drawn.api_key;
    secret_hash = derive_key env.crypto env.settings drawn.api_secret;
    is_active = true;
    webhook_url = payload.webhook_url;
  }

  unfoldable pub create_merchant :
      Uuid → Credentials → MerchantCreateRequest → M MerchantCreateResponse
  create_merchant key drawn payload = do
    write (add_merchant (new_merchant key drawn payload))
    commit
    pure (record { merchant_id = key; api_key = drawn.api_key; api_secret = drawn.api_secret })

  -- The token of a merchant whose secret was verified.
  abbrev pub issue_token : (Uuid → String) → ℕ → Merchant → Bool → M (Answer TokenResponse)
  issue_token uuid_str now m is_valid =
      if is_valid
      then (lift (create_access_token env.jwt env.settings now (uuid_str m.id) m.id) >>= λ token.
          pure (
            replied (record {
              access_token = token;
              token_type = "bearer";
              expires_in = env.settings.jwt_access_token_expire_minutes * 60;
            })))
      else pure (rejected 401)

  abbrev pub token_for : (Uuid → String) → ℕ → String → Option Merchant → M (Answer TokenResponse)
  token_for uuid_str now password none = pure (rejected 401)
  token_for uuid_str now password (some m) =
      lift (verify_credential env.crypto env.settings password m.secret_hash)
      >>= issue_token uuid_str now m

  unfoldable pub merchant_token : (Uuid → String) → ℕ → TokenForm → M (Answer TokenResponse)
  merchant_token uuid_str now form = do
    merchants ← read (λ db.
        select (has_key_hash (derive_key env.crypto env.settings form.username)) db.merchants)
    merchant ← scalar_one_or_none merchants
    token_for uuid_str now form.password merchant
