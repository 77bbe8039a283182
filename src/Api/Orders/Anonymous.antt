-- ===== src/Api/Orders/Anonymous.antt =====
-- The endpoints of orders and payments (app/api/v1) without a valid credential.
use payment_gateway_system.Prelude.{
  arith, ℕ, String, Bool, true, ◌≡◌, refl, sym, ap, ◌∙◌, Option, none, some, List, [], ◌∷◌, ◌==◌,
  str_eq, eq_iff, Bool-cases, ◌⊎◌, inl, inr, if◌then◌else◌,
}
use payment_gateway_system.Prelude.Rows.{select, distinct, IsRow}
use payment_gateway_system.Prelude.Laws.{select_unique, IsRow-select, select-head}
use payment_gateway_system.Models.Merchant.{Merchant}
use payment_gateway_system.Models.Payment.{Uuid}
use payment_gateway_system.Models.Database.{Db, unique_keys, unique_merchants}
use payment_gateway_system.Core.Security.{Mid, text, derive_key, decode_access_token}
use payment_gateway_system.Session.{Session, ok, M, ◌>>=◌, pure, scalar_one_or_none, with_session}
use payment_gateway_system.Services.Order.{OrderDraws, CreateOrderRequest}
use payment_gateway_system.Services.Payment.{PaymentDraws, UpiInitiateRequest}
use payment_gateway_system.Api.Answer.{Answer, rejected}
use payment_gateway_system.Api.Auth.{
  AuthEnvironment, Bearer, has_key_hash, require_active, by_api_key, by_payload,
  get_current_merchant,
}
use payment_gateway_system.Api.Orders.{create_order_endpoint, get_order}
use payment_gateway_system.Api.Payments.{initiate_upi_payment}

-- The bearer token counts as absent.
abbrev pub NoToken : Option String → Type 0
NoToken o = (o ≡ none) ⊎ (o ≡ some "")

-- What a request proves: that it is this merchant's, by the identifier in a valid token, or, with
-- no token, by the API key.
pub data Proves (env : AuthEnvironment) (now : ℕ) (b : Bearer) (m : Merchant) : Type 0 where
  by_identifier :
      (token t : String)
      → b.token ≡ some token
      → ¬ (token ≡ "")
      → decode_access_token env.jwt env.settings now token ≡ some (some (text t))
      → env.parse_uuid t ≡ some m.id
      → Proves env now b m
  by_key :
      (api_key : String)
      → NoToken b.token
      → b.api_key ≡ some api_key
      → m.api_key_hash ≡ derive_key env.crypto env.settings api_key
      → Proves env now b m

-- A request that proves to be of no active merchant of the table. If its token is valid and names a
-- merchant, it does so by the text of an identifier; the code fails on another name.
pub record IsAnonymous (env : AuthEnvironment) (now : ℕ) (b : Bearer) (db : Db) : Type 0 where
  pub unproved : (m : Merchant) → IsRow m db.merchants → m.is_active ≡ true → ¬ Proves env now b m
  pub readable :
      (token : String) (mid : Mid)
      → b.token ≡ some token
      → decode_access_token env.jwt env.settings now token ≡ some (some mid)
      → (t : String) × (mid ≡ text t) × ((key : Uuid) × (env.parse_uuid t ≡ some key))

distinct_merchants :
    (db : Db)
    → unique_keys db ≡ true
    → distinct (λ (a b : Merchant). a.id == b.id) db.merchants ≡ true
unfolding unique_keys unique_merchants
distinct_merchants db u = ground arith

distinct_hashes :
    (db : Db)
    → unique_keys db ≡ true
    → distinct (λ (a b : Merchant). str_eq a.api_key_hash b.api_key_hash) db.merchants ≡ true
unfolding unique_keys unique_merchants
distinct_hashes db u = ground arith

-- A query for one merchant that finds no active one.
module _ (p : Merchant → Bool) (same : Merchant → Merchant → Bool)
    (agree : (a b : Merchant) → p a ≡ true → p b ≡ true → same a b ≡ true) (s : Session)
    (unique : distinct same s.current.merchants ≡ true)
    (passive : (m : Merchant)
      → IsRow m s.current.merchants
      → p m ≡ true
      → ¬ (m.is_active ≡ true)) where
  one_rejected :
      (rows : List Merchant)
      → select p s.current.merchants ≡ rows
      → (scalar_one_or_none rows >>= λ o. pure (require_active o)) s ≡ (ok (rejected 401), s)
  unfolding ◌>>=◌
  one_rejected [] e = refl
  one_rejected (m ∷ []) e = elim (Bool-cases m.is_active) [
    | inl a ↦
        absurd
          (passive m (IsRow-select p s.current.merchants e) (select-head p s.current.merchants e) a)
    | inr a ↦ rw a refl
  ]
  one_rejected (m ∷ n ∷ rows) e = cc (
    e,
    select_unique p same agree s.current.merchants m (IsRow-select p s.current.merchants e) unique
        (select-head p s.current.merchants e),
  )

module _ (env : AuthEnvironment) (now : ℕ) (b : Bearer) (s : Session)
    (u : unique_keys s.current ≡ true) (a : IsAnonymous env now b s.current) where
  key_rejected :
      (o : Option String)
      → NoToken b.token
      → b.api_key ≡ o
      → by_api_key env now o s ≡ (ok (rejected 401), s)
  unfolding ◌>>=◌
  key_rejected none n e = refl
  key_rejected (some k) n e =
      one_rejected (has_key_hash hash) (λ x y. str_eq x.api_key_hash y.api_key_hash) alike s
        (distinct_hashes s.current u)
        (λ m r h active. a.unproved m r active (by_key k n e ((eq_iff m.api_key_hash hash).0 h))) _
        refl
    where
      hash : String
      hash = derive_key env.crypto env.settings k

      alike :
          (x y : Merchant)
          → has_key_hash hash x ≡ true
          → has_key_hash hash y ≡ true
          → str_eq x.api_key_hash y.api_key_hash ≡ true
      alike x y h g = ground (
        arith,
        eq_iff x.api_key_hash hash,
        eq_iff y.api_key_hash hash,
        eq_iff x.api_key_hash y.api_key_hash,
      )

  payload_rejected :
      (token : String)
      → b.token ≡ some token
      → ¬ (token ≡ "")
      → (o : Option (Option Mid)) → decode_access_token env.jwt env.settings now token ≡ o
      → by_payload env now o s ≡ (ok (rejected 401), s)
  unfolding ◌>>=◌
  payload_rejected token t n none d = refl
  payload_rejected token t n (some none) d = refl
  payload_rejected token t n (some (some mid)) d =
      let (name, q, (key, k)) = a.readable token mid t d in
      rw (q, k)
        (one_rejected (λ m. m.id == key) (λ x y. x.id == y.id) (alike key) s
          (distinct_merchants s.current u)
          (λ m r h active. a.unproved m r active (
            by_identifier token name t n (d ∙ ap (λ (x : Mid). some (some x)) q)
              (k ∙ ap some (sym (same_key m.id key h)))))
          _ refl)
    where
      same_key : (x y : Uuid) → (x == y) ≡ true → x ≡ y
      same_key x y h = ground arith

      alike :
          (key : Uuid) (x y : Merchant)
          → (x.id == key) ≡ true
          → (y.id == key) ≡ true
          → (x.id == y.id) ≡ true
      alike key x y h g = ground arith

  anonymous-rejected : get_current_merchant env now b s ≡ (ok (rejected 401), s)
  unfolding get_current_merchant
  anonymous-rejected = go b.token refl
    where
      go :
          (o : Option String)
          → b.token ≡ o
          → (elim o as (λ x. M (Answer Merchant)) [
            | none ↦ by_api_key env now b.api_key
            | some token ↦
                if str_eq token ""
                then by_api_key env now b.api_key
                else by_payload env now (decode_access_token env.jwt env.settings now token)
          ])
              s
            ≡ (ok (rejected 401), s)
      go none e = key_rejected b.api_key (inl e) refl
      go (some token) e = elim (Bool-cases (str_eq token "")) [
        | inl q ↦ rw q (key_rejected b.api_key (inr (e ∙ ap some ((eq_iff token "").0 q))) refl)
        | inr q ↦ rw q (payload_rejected token e (λ n. cc (q, (eq_iff token "").1 n)) _ refl)
      ]

-- A request with no valid credential, on a database whose keys are unique, gets status 401 from the
-- endpoints that create an order, read an order and start a payment, whatever else it says, and the
-- database stays as it is. A request has no valid credential if there is no active merchant that its
-- token names, or, where it has no token, that has its API key; a token that is valid and names a
-- merchant is taken to do so by the text of an identifier.
pub anonymous-Refused :
    (env : AuthEnvironment) (now : ℕ) (b : Bearer) (order_draws : OrderDraws)
    (order : CreateOrderRequest) (order_id : String) (payment_draws : PaymentDraws)
    (payment : UpiInitiateRequest) (db : Db)
    → unique_keys db ≡ true
    → IsAnonymous env now b db
    → (with_session (create_order_endpoint env now b order_draws order) db
        ≡ (ok (rejected 401), db))
      × (with_session (get_order env now b order_id) db ≡ (ok (rejected 401), db))
      × (with_session (initiate_upi_payment env now b payment_draws payment) db
          ≡ (ok (rejected 401), db))
unfolding with_session create_order_endpoint get_order initiate_upi_payment ◌>>=◌
anonymous-Refused env now b order_draws order order_id payment_draws payment db u a =
    let e = anonymous-rejected env now b (record { stored = db; current = db }) u a in
    (rw e refl, rw e refl, rw e refl)
