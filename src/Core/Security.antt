-- ===== src/Core/Security.antt =====
-- app/core/security.py: identifiers, the hashing of credentials, access tokens and signatures.
use payment_gateway_system.Prelude.{
  ℕ, ◌+◌, ◌*◌, String, Bool, true, ◌&&◌, Option, none, some, List, ltb, str_eq, if◌then◌else◌,
}
use payment_gateway_system.Prelude.Int.{ℤ}
use payment_gateway_system.Models.Payment.{Uuid}
use payment_gateway_system.Core.Config.{Settings}
use payment_gateway_system.Session.{Result, ok, err, unexpected}
use Prim.Native.Char.{code}
use Prim.Native.String.{◌++◌}

-- `new_id`, at the token that `secrets.token_urlsafe` draws.
abbrev pub new_id : String → String → String
new_id prefix token = prefix ++ ("_" ++ token)

-- The code of the libraries that this file calls: SHA-256 of a message and HMAC-SHA256 of a key and
-- a message as hex digests, and the UTF-8 bytes of a text. Bytes are numbers.
pub record Crypto : Type 0 where
  pub sha256 : List ℕ → String
  pub hmac_sha256 : List ℕ → List ℕ → String
  pub encode : String → List ℕ

unfoldable pub is_ascii : String → Bool
is_ascii String.[] = true
is_ascii (String.◌∷◌ c s) = ltb (code c) 128 && is_ascii s

-- `hmac.compare_digest`: the equality of two ASCII texts, whatever the time it takes; it raises for
-- any other text.
unfoldable pub secure_compare : String → String → Result Bool
secure_compare left right =
    if is_ascii left && is_ascii right then ok (str_eq left right) else err unexpected

abbrev pub derive_key : Crypto → Settings → String → String
derive_key c settings token = c.sha256 (c.encode (settings.api_key_salt ++ (":" ++ token)))

abbrev pub verify_credential : Crypto → Settings → String → String → Result Bool
verify_credential c settings plaintext stored_hash =
    secure_compare (derive_key c settings plaintext) stored_hash

-- The pair that `generate_api_credentials` draws.
pub record Credentials : Type 0 where
  pub api_key : String
  pub api_secret : String

abbrev pub sign_payload : Crypto → List ℕ → String → String
sign_payload c payload secret = c.hmac_sha256 (c.encode secret) payload

abbrev pub verify_signature : Crypto → List ℕ → String → String → Result Bool
verify_signature c payload secret signature =
    secure_compare (sign_payload c payload secret) signature

-- What a token is made from. Times are in seconds.
pub record Claims : Type 0 where
  pub sub : String
  pub mid : Uuid
  pub exp : ℕ
  pub iat : ℕ

-- The value of `mid` in a token that was read: JSON has no identifiers, only numbers and texts.
pub data Mid : Type 0 where
  number : ℤ → Mid
  text : String → Mid

-- `jose.jwt`, of a secret and an algorithm: `encode` fails on claims that JSON cannot express, and
-- `decode`, at a time, on a token that is not valid. `decode` gives the value of `mid`, if there is
-- one.
pub record Jwt : Type 0 where
  pub encode : String → String → Claims → Option String
  pub decode : String → String → ℕ → String → Option (Option Mid)

abbrev pub encoded_token : Option String → Result String
encoded_token none = err unexpected
encoded_token (some token) = ok token

module _ (jwt : Jwt) (settings : Settings) (now : ℕ) where
  abbrev pub access_claims : String → Uuid → Claims
  access_claims subject merchant_id = record {
    sub = subject;
    mid = merchant_id;
    exp = now + settings.jwt_access_token_expire_minutes * 60;
    iat = now;
  }

  -- `create_access_token`, which raises where the library does.
  abbrev pub create_access_token : String → Uuid → Result String
  create_access_token subject merchant_id =
      encoded_token
        (jwt.encode settings.secret_key settings.jwt_algorithm (access_claims subject merchant_id))

  -- `decode_access_token`; nothing where it raises `ValueError`.
  abbrev pub decode_access_token : String → Option (Option Mid)
  decode_access_token token = jwt.decode settings.secret_key settings.jwt_algorithm now token
