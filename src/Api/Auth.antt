-- ===== src/Api/Auth.antt =====
-- app/api/deps.py: the merchant of a request, from an access token or from an API key.
pub mod Rules
use payment_gateway_system.Prelude.{
  ℕ, String, Bool, Option, none, some, List, ◌==◌, str_eq, if◌then◌else◌,
}
use payment_gateway_system.Prelude.Rows.{select}
use payment_gateway_system.Models.Payment.{Uuid}
use payment_gateway_system.Models.Merchant.{Merchant}
use payment_gateway_system.Models.Database.{Db}
use payment_gateway_system.Core.Config.{Settings}
use payment_gateway_system.Core.Security.{
  Crypto, Jwt, Mid, number, text, derive_key, decode_access_token,
}
use payment_gateway_system.Session.{
  M, ◌>>=◌, ◌>>◌, pure, raise, read, scalar_one_or_none, unexpected,
}
use payment_gateway_system.Api.Answer.{Answer, rejected, replied}

-- The libraries and the settings of the authentication. `parse_uuid` reads the text of an identifier.
pub record AuthEnvironment : Type 0 where
  pub crypto : Crypto
  pub jwt : Jwt
  pub parse_uuid : String → Option Uuid
  pub settings : Settings

-- The bearer token and the header `X-Api-Key` of a request.
pub record Bearer : Type 0 where
  pub token : Option String
  pub api_key : Option String

abbrev pub has_key_hash : String → Merchant → Bool
has_key_hash key_hash m = str_eq m.api_key_hash key_hash

-- `merchant is None or not merchant.is_active`
abbrev pub require_active : Option Merchant → Answer Merchant
require_active none = rejected 401
require_active (some m) = if m.is_active then replied m else rejected 401

module _ (env : AuthEnvironment) (now : ℕ) where
  -- `db.get(Merchant, merchant_id)`, of a value that is no identifier an error of the database.
  abbrev pub get_merchant : Option Uuid → M (Option Merchant)
  get_merchant none = raise unexpected
  get_merchant (some key) =
      read (λ db. select (λ m. m.id == key) db.merchants) >>= scalar_one_or_none

  abbrev pub merchant_of_mid : Mid → M (Option Merchant)
  merchant_of_mid (number n) = raise unexpected
  merchant_of_mid (text t) = get_merchant (env.parse_uuid t)

  abbrev pub by_payload : Option (Option Mid) → M (Answer Merchant)
  by_payload none = pure (rejected 401)
  by_payload (some none) = pure (rejected 401)
  by_payload (some (some mid)) = merchant_of_mid mid >>= λ m. pure (require_active m)

  abbrev pub by_api_key : Option String → M (Answer Merchant)
  by_api_key none = pure (require_active none)
  by_api_key (some api_key) = do
    merchants ←
        read (λ db. select (has_key_hash (derive_key env.crypto env.settings api_key)) db.merchants)
    merchant ← scalar_one_or_none merchants
    pure (require_active merchant)

  -- `if token`, of a text that is not empty, and `elif api_key is not None`.
  abbrev pub by_token : String → Option String → M (Answer Merchant)
  by_token token api_key =
      if str_eq token ""
      then by_api_key api_key
      else by_payload (decode_access_token env.jwt env.settings now token)

  unfoldable pub get_current_merchant : Bearer → M (Answer Merchant)
  get_current_merchant b = elim b.token [
    | none ↦ by_api_key b.api_key
    | some token ↦ by_token token b.api_key
  ]
