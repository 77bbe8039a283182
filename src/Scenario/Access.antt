-- ===== src/Scenario/Access.antt =====
-- A merchant that is created, authenticated and served, with libraries that know its credentials.
use payment_gateway_system.Prelude.{
  inl, inr, eq_iff, sym, ap, ◌∙◌, Bool, false, ℕ, String, true, ◌≡◌, refl, none, some, List, [],
  ◌∷◌, ◌==◌, str_eq, if◌then◌else◌,
}
use payment_gateway_system.Prelude.Rows.{select, any, all, distinct, IsRow}
use payment_gateway_system.Models.Merchant.{Merchant}
use payment_gateway_system.Models.Database.{
  Db, empty_db, fits_columns, unique_keys, fits, fits_optional, fits_money, fits_merchant,
  fits_intent, fits_transaction, fits_account, fits_entry, fits_delivery, unique_merchants,
  unique_intents, unique_transactions, unique_accounts,
}
use payment_gateway_system.Core.Config.{default_settings}
use payment_gateway_system.Core.Security.{derive_key, Credentials, is_ascii, text}
use payment_gateway_system.Session.{ok, err, unexpected, ◌>>=◌, commit, with_session}
use payment_gateway_system.Services.Order.{order_response}
use payment_gateway_system.Api.Answer.{rejected, replied}
use payment_gateway_system.Api.Auth.{AuthEnvironment, Bearer, get_current_merchant}
use payment_gateway_system.Api.Auth.Rules.{Shows, get_current_merchant-Shows}
use payment_gateway_system.Api.Merchants.{
  MerchantCreateRequest, MerchantCreateResponse, add_merchant, new_merchant, create_merchant,
  merchant_token,
}
use payment_gateway_system.Api.Merchants.Rules.{
  get_current_merchant-create_merchant, merchant_token-create_merchant,
}
use payment_gateway_system.Api.Orders.{create_order_endpoint, get_order, order_of}
use payment_gateway_system.Api.Orders.Rules.{order_of-create_order}
use payment_gateway_system.Api.Orders.Anonymous.{
  Proves, by_identifier, IsAnonymous, anonymous-Refused,
}
use payment_gateway_system.Api.Orders.Isolation.{Own, get_order-Own}
use payment_gateway_system.Api.Payments.{initiate_upi_payment}
use payment_gateway_system.Scenario.Data.{
  order_draws, order_request, payment_draws, payment_request, intent, ordered, sample_uuid_str,
}
use payment_gateway_system.Scenario.Runs.{run_order}

abbrev pub sample_bytes : String → List ℕ
sample_bytes s =
    if str_eq s "change-me:k1" then 1 ∷ [] else (if str_eq s "change-me:s1" then 2 ∷ [] else [])

abbrev pub sample_digest : List ℕ → String
sample_digest [] = "00"
sample_digest (n ∷ ns) = if n == 1 then "aa" else "bb"

-- The JWT library encodes no identifier, and reads one token.
abbrev pub access : AuthEnvironment
access = record {
  crypto = record { sha256 = sample_digest; hmac_sha256 = λ k m. ""; encode = sample_bytes };
  jwt = record {
    encode = λ secret alg claims. none;
    decode = λ secret alg now token. if str_eq token "t7" then some (some (text "7f3a")) else none;
  };
  parse_uuid = λ s. if str_eq s "7f3a" then some 7 else none;
  settings = default_settings;
}

abbrev pub drawn : Credentials
drawn = record { api_key = "k1"; api_secret = "s1" }

abbrev pub shop_request : MerchantCreateRequest
shop_request = record { name = "shop"; webhook_url = none }

abbrev shop : Merchant
shop = new_merchant access 7 drawn shop_request

abbrev opened : Db
opened = add_merchant shop empty_db

abbrev opened_response : MerchantCreateResponse
opened_response = record { merchant_id = 7; api_key = "k1"; api_secret = "s1" }

run_create :
    with_session (create_merchant access 7 drawn shop_request) empty_db
    ≡ (ok opened_response, opened)
unfolding with_session ◌>>=◌ commit create_merchant all any distinct fits_columns unique_keys fits
    fits_optional fits_money fits_merchant fits_intent fits_transaction fits_account fits_entry
    fits_delivery unique_merchants unique_intents unique_transactions unique_accounts
run_create = refl

abbrev pub by_key : Bearer
by_key = record { token = none; api_key = some "k1" }

abbrev by_stranger : Bearer
by_stranger = record { token = none; api_key = some "k2" }

get_current_merchant-create_merchant_example :
    with_session (get_current_merchant access 1000 by_key) opened ≡ (ok (replied shop), opened)
get_current_merchant-create_merchant_example =
    get_current_merchant-create_merchant access 7 drawn shop_request 1000 empty_db run_create

get_current_merchant-Shows_example :
    Shows access 1000 by_key shop × (true ≡ true) × IsRow shop opened.merchants × (opened ≡ opened)
get_current_merchant-Shows_example =
    get_current_merchant-Shows access 1000 by_key opened
      get_current_merchant-create_merchant_example

-- The right secret, and a library that cannot encode the identifier of the merchant.
merchant_token-create_merchant_example :
    with_session
      (merchant_token access sample_uuid_str 1000 (record { username = "k1"; password = "s1" }))
      opened
    ≡ (err unexpected, opened)
unfolding is_ascii
merchant_token-create_merchant_example =
    merchant_token-create_merchant access sample_uuid_str 7 drawn shop_request 1000 "s1" empty_db
      refl refl run_create

abbrev hash_of : String → String
hash_of k = derive_key access.crypto access.settings k

other_hash : str_eq shop.api_key_hash (hash_of "k2") ≡ false
other_hash = refl

not_shop : (k : String) → some "k2" ≡ some k → ¬ (shop.api_key_hash ≡ hash_of k)
not_shop k e h =
    differ other_hash ((eq_iff shop.api_key_hash (hash_of "k2")).1 (h ∙ ap hash_of (key k e)))
  where
    differ : {b : Bool} → b ≡ false → ¬ (b ≡ true)
    differ f t = cc

    key : (k : String) → some "k2" ≡ some k → k ≡ "k2"
    key k e = cc

-- The key of the shop is another.
stranger_unknown : (m : Merchant) → IsRow m opened.merchants → ¬ Proves access 1000 by_stranger m
stranger_unknown m r (by_identifier token t e n d p) = cc e
stranger_unknown m (inl p) (Proves.by_key k n e h) =
    not_shop k e (sym (ap (λ (x : Merchant). x.api_key_hash) p) ∙ h)
stranger_unknown m (inr q) (Proves.by_key k n e h) = absurd q

stranger-IsAnonymous : IsAnonymous access 1000 by_stranger opened
stranger-IsAnonymous = record {
  unproved = λ m r a. stranger_unknown m r;
  readable = λ token mid e d. cc e;
}

anonymous-Refused_example :
    (with_session (create_order_endpoint access 1000 by_stranger order_draws order_request) opened
      ≡ (ok (rejected 401), opened))
    × (with_session (get_order access 1000 by_stranger "ord_a1") opened
        ≡ (ok (rejected 401), opened))
    × (with_session
          (initiate_upi_payment access 1000 by_stranger payment_draws payment_request)
          opened
        ≡ (ok (rejected 401), opened))
unfolding unique_keys unique_merchants unique_intents unique_transactions unique_accounts distinct
    any
anonymous-Refused_example =
    anonymous-Refused access 1000 by_stranger order_draws order_request "ord_a1" payment_draws
      payment_request opened refl stranger-IsAnonymous

order_of-create_order_example :
    with_session (order_of access 1000 "ord_a1" shop) ordered
    ≡ (ok (replied (order_response intent)), ordered)
unfolding unique_keys unique_merchants unique_intents unique_transactions unique_accounts distinct
order_of-create_order_example =
    order_of-create_order access 1000 order_draws shop order_request empty_db refl run_order

abbrev served : Db
served = record ordered { merchants = shop ∷ [] }

run_get :
    with_session (get_order access 1000 by_key "ord_a1") served
    ≡ (ok (replied (order_response intent)), served)
unfolding with_session ◌>>=◌ get_order get_current_merchant select
run_get = refl

get_order-Own_example : Own access 1000 by_key "ord_a1" (order_response intent) served
get_order-Own_example = get_order-Own access 1000 by_key "ord_a1" served run_get
