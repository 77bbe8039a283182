-- ===== src/Api/Merchants/Rules.antt =====
-- A new merchant and its credentials (app/api/v1/merchants.py).
use payment_gateway_system.Prelude.{
  arith, ℕ, String, Bool, true, false, ◌≡◌, refl, sym, ap, Option, none, some, List, [], ◌∷◌,
  str_eq, eq_iff, Bool-cases, inl, inr, ◌*◌, if◌then◌else◌,
}
use payment_gateway_system.Prelude.Rows.{select, any, distinct}
use payment_gateway_system.Prelude.Laws.{select_none}
use payment_gateway_system.Models.Merchant.{Merchant}
use payment_gateway_system.Models.Payment.{Uuid}
use payment_gateway_system.Models.Database.{Db, fits_columns, unique_keys, unique_merchants}
use payment_gateway_system.Core.Security.{
  Credentials, derive_key, secure_compare, access_claims, encoded_token, is_ascii,
}
use payment_gateway_system.Session.{
  Session, Result, ok, err, ◌>>=◌, pure, lift, commit, with_session, unexpected,
}
use payment_gateway_system.Api.Answer.{Answer, rejected, replied}
use payment_gateway_system.Api.Auth.{AuthEnvironment, has_key_hash, get_current_merchant}
use payment_gateway_system.Api.Merchants.{
  MerchantCreateRequest, MerchantCreateResponse, TokenResponse, add_merchant, new_merchant,
  create_merchant, merchant_token, issue_token,
}

-- What a creation that returned has stored and answered.
record Created (m : Merchant) (drawn : Credentials) (db : Db) (r : MerchantCreateResponse)
    (db' : Db) : Type 0 where
  stored : db' ≡ add_merchant m db
  alone : select (has_key_hash m.api_key_hash) (m ∷ db.merchants) ≡ m ∷ []
  response :
      r ≡ record { merchant_id = m.id; api_key = drawn.api_key; api_secret = drawn.api_secret }

fresh_key :
    (m : Merchant) (ms : List Merchant)
    → unique_merchants (m ∷ ms) ≡ true
    → any (λ b. str_eq m.api_key_hash b.api_key_hash) ms ≡ false
unfolding unique_merchants distinct
fresh_key m ms u = ground arith

key_alone :
    (m : Merchant) (ms : List Merchant)
    → unique_merchants (m ∷ ms) ≡ true
    → select (has_key_hash m.api_key_hash) (m ∷ ms) ≡ m ∷ []
unfolding unique_merchants distinct select
key_alone m ms u =
    rw
      (
        (eq_iff m.api_key_hash m.api_key_hash).1 refl,
        select_none (has_key_hash m.api_key_hash) (λ b. str_eq m.api_key_hash b.api_key_hash) ms
            (λ b h.
              (eq_iff m.api_key_hash b.api_key_hash).1
                (sym ((eq_iff b.api_key_hash m.api_key_hash).0 h)))
            (fresh_key m ms u),
      )
      refl

unique_first : (db : Db) → unique_keys db ≡ true → unique_merchants db.merchants ≡ true
unfolding unique_keys
unique_first db u = ground arith

module _ (env : AuthEnvironment) (key : Uuid) (drawn : Credentials)
    (payload : MerchantCreateRequest) (db : Db) where
  abbrev created : Merchant
  created = new_merchant env key drawn payload

  create_merchant-Created :
      {r : MerchantCreateResponse} {db' : Db}
      → with_session (create_merchant env key drawn payload) db ≡ (ok r, db')
      → Created created drawn db r db'
  unfolding with_session create_merchant ◌>>=◌ commit
  create_merchant-Created {r} {db'} h = elim (Bool-cases (fits_columns (add_merchant created db))) [
    | inl f ↦ elim (Bool-cases (unique_keys (add_merchant created db))) [
      | inl u ↦
          let g = rw (f, u) at h in
          record {
            stored = sym (ap (λ (p : Result MerchantCreateResponse × Db). p.1) g);
            alone = key_alone created db.merchants (unique_first (add_merchant created db) u);
            response = cc (ap (λ (p : Result MerchantCreateResponse × Db). p.0) g);
          }
      | inr u ↦ cc (rw (f, u) at h)
    ]
    | inr f ↦ cc (rw f at h)
  ]

-- A creation of a merchant that returned, with whatever credentials were drawn: a request with the
-- API key of its response, at any time and with no token, is authenticated as the new merchant, and
-- the row of that merchant holds the hashes of the two credentials.
pub get_current_merchant-create_merchant :
    (env : AuthEnvironment) (key : Uuid) (drawn : Credentials) (payload : MerchantCreateRequest)
    (now : ℕ) (db : Db) {r : MerchantCreateResponse} {db' : Db}
    → with_session (create_merchant env key drawn payload) db ≡ (ok r, db')
    → with_session
        (get_current_merchant env now (record { token = none; api_key = some r.api_key }))
        db'
      ≡ (ok (replied (new_merchant env r.merchant_id drawn payload)), db')
unfolding with_session get_current_merchant ◌>>=◌
get_current_merchant-create_merchant env key drawn payload now db {r} {db'} h =
    let c = create_merchant-Created env key drawn payload db h in
    rw (c.response, c.stored) (rw c.alone refl)

-- The end of a request for a token with the right secret: what the JWT library makes of the claims.
abbrev pub token_end : AuthEnvironment → Option String → Result (Answer TokenResponse)
token_end env none = err unexpected
token_end env (some token) = ok (
    replied (record {
      access_token = token;
      token_type = "bearer";
      expires_in = env.settings.jwt_access_token_expire_minutes * 60;
    }))

abbrev pub encoded : AuthEnvironment → (Uuid → String) → ℕ → Uuid → Option String
encoded env uuid_str now key =
    env.jwt.encode env.settings.secret_key env.settings.jwt_algorithm
      (access_claims env.jwt env.settings now (uuid_str key) key)

token_end_lem :
    (env : AuthEnvironment) (o : Option String) (s : Session)
    → (lift (encoded_token o) >>= λ token. pure (
          replied (record {
            access_token = token;
            token_type = "bearer";
            expires_in = env.settings.jwt_access_token_expire_minutes * 60;
          })))
        s
      ≡ (token_end env o, s)
unfolding ◌>>=◌
token_end_lem env none s = refl
token_end_lem env (some token) s = refl

issue_token-end :
    (env : AuthEnvironment) (uuid_str : Uuid → String) (now : ℕ) (m : Merchant) (b : Bool)
    (s : Session)
    → issue_token env uuid_str now m b s
      ≡ ((if b then token_end env (encoded env uuid_str now m.id) else ok (rejected 401)), s)
unfolding ◌>>=◌
issue_token-end env uuid_str now m true s = token_end_lem env (encoded env uuid_str now m.id) s
issue_token-end env uuid_str now m false s = refl

-- A creation of a merchant that returned, where the digests are ASCII: a request for a token with
-- its API key and some password ends, if the digest of the password is that of the drawn secret, as
-- the JWT library encodes the claims, with an exception where it cannot, and with status 401 if it
-- is another one. Nothing is stored.
pub merchant_token-create_merchant :
    (env : AuthEnvironment) (uuid_str : Uuid → String) (key : Uuid) (drawn : Credentials)
    (payload : MerchantCreateRequest) (now : ℕ) (password : String) (db : Db)
    {r : MerchantCreateResponse} {db' : Db}
    → is_ascii (derive_key env.crypto env.settings password) ≡ true
    → is_ascii (derive_key env.crypto env.settings drawn.api_secret) ≡ true
    → with_session (create_merchant env key drawn payload) db ≡ (ok r, db')
    → with_session
        (merchant_token env uuid_str now (record { username = r.api_key; password = password }))
        db'
      ≡ (
        (if str_eq
              (derive_key env.crypto env.settings password)
              (derive_key env.crypto env.settings drawn.api_secret)
            then token_end env (encoded env uuid_str now r.merchant_id)
            else ok (rejected 401)),
        db',
      )
unfolding with_session merchant_token ◌>>=◌ secure_compare
merchant_token-create_merchant env uuid_str key drawn payload now password db {r} {db'} a a' h =
    let c = create_merchant-Created env key drawn payload db h in
    rw (c.response, c.stored)
      (rw (c.alone, a, a')
        (rw
          (issue_token-end env uuid_str now (new_merchant env key drawn payload)
            (str_eq (derive_key env.crypto env.settings password)
              (derive_key env.crypto env.settings drawn.api_secret))
            (record {
              stored = add_merchant (new_merchant env key drawn payload) db;
              current = add_merchant (new_merchant env key drawn payload) db;
            }))
          refl))
