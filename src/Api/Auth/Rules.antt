-- ===== src/Api/Auth/Rules.antt =====
-- Whom the authentication (app/api/deps.py) lets through.
use payment_gateway_system.Prelude.{
  arith, ℕ, String, Bool, true, ◌≡◌, refl, sym, ap, subst, ◌∙◌, Option, none, some, List, [], ◌∷◌,
  ◌==◌, str_eq, eq_iff, Bool-cases, inl, inr,
}
use payment_gateway_system.Prelude.Rows.{select, IsRow}
use payment_gateway_system.Prelude.Laws.{IsRow-select, select-head}
use payment_gateway_system.Models.Merchant.{Merchant}
use payment_gateway_system.Models.Payment.{Uuid}
use payment_gateway_system.Models.Database.{Db}
use payment_gateway_system.Core.Security.{Mid, number, text, derive_key, decode_access_token}
use payment_gateway_system.Session.{
  Session, Result, ok, M, ◌>>=◌, pure, scalar_one_or_none, with_session,
}
use payment_gateway_system.Session.Triples.{
  LeavesSession, LeavesSession-pure, LeavesSession-raise, LeavesSession-bind, LeavesSession-if,
  leaving,
}
use payment_gateway_system.Api.Answer.{Answer, replied}
use payment_gateway_system.Api.Auth.{
  AuthEnvironment, Bearer, has_key_hash, require_active, get_merchant, by_payload, by_api_key,
  by_token, get_current_merchant,
}

-- What a request shows of a merchant: a valid token with its identifier, or its API key.
pub data Shows (env : AuthEnvironment) (now : ℕ) (b : Bearer) (m : Merchant) : Type 0 where
  by_identifier :
      (token t : String)
      → b.token ≡ some token
      → decode_access_token env.jwt env.settings now token ≡ some (some (text t))
      → env.parse_uuid t ≡ some m.id
      → Shows env now b m
  by_key :
      (api_key : String)
      → b.api_key ≡ some api_key
      → m.api_key_hash ≡ derive_key env.crypto env.settings api_key
      → Shows env now b m

same_key : (a b : Uuid) → (a == b) ≡ true → a ≡ b
same_key a b h = ground arith

-- The one row that a query found, and that is active.
record Active (rows : List Merchant) (m : Merchant) : Type 0 where
  single : rows ≡ m ∷ []
  active : m.is_active ≡ true

found-Active :
    (rows : List Merchant) (s : Session) {m : Merchant} {s' : Session}
    → (scalar_one_or_none rows >>= λ o. pure (require_active o)) s ≡ (ok (replied m), s')
    → Active rows m
unfolding ◌>>=◌
found-Active [] s h = cc
found-Active (x ∷ []) s h = elim (Bool-cases x.is_active) [
  | inl a ↦
      let e : x ≡ _ = cc (rw a at h) in
      record {
        single = ap (λ (y : Merchant). y ∷ []) e;
        active = subst (λ (y : Merchant). y.is_active ≡ true) e a;
      }
  | inr a ↦ cc (rw a at h)
]
found-Active (x ∷ y ∷ rows) s h = cc

module _ (env : AuthEnvironment) (now : ℕ) (s : Session) (m : Merchant) where
  record Known : Type 0 where
    active : m.is_active ≡ true
    row : IsRow m s.current.merchants

  known : (p : Merchant → Bool) → Active (select p s.current.merchants) m → Known
  known p a = record { active = a.active; row = IsRow-select p s.current.merchants a.single }

  key_shown :
      (api_key : Option String) {s' : Session}
      → by_api_key env now api_key s ≡ (ok (replied m), s')
      → ((k : String) × (api_key ≡ some k)
          × (m.api_key_hash ≡ derive_key env.crypto env.settings k))
        × Known
  unfolding ◌>>=◌
  key_shown none h = absurd (ground arith)
  key_shown (some k) h =
      let p : Merchant → Bool = has_key_hash (derive_key env.crypto env.settings k) in
      let a = found-Active (select p s.current.merchants) s h in
      (
        (
          k,
          refl,
          (eq_iff m.api_key_hash (derive_key env.crypto env.settings k)).0
              (select-head p s.current.merchants a.single),
        ),
        known p a,
      )

  get_merchant_shown :
      (o : Option Uuid) {s' : Session}
      → (get_merchant env now o >>= λ x. pure (require_active x)) s ≡ (ok (replied m), s')
      → (o ≡ some m.id) × Known
  unfolding ◌>>=◌
  get_merchant_shown none h = absurd (ground arith)
  get_merchant_shown (some key) h =
      let p : Merchant → Bool = λ x. x.id == key in
      let a = found-Active (select p s.current.merchants) s h in
      (ap some (sym (same_key m.id key (select-head p s.current.merchants a.single))), known p a)

  payload_shown :
      (o : Option (Option Mid)) {s' : Session}
      → by_payload env now o s ≡ (ok (replied m), s')
      → ((t : String) × (o ≡ some (some (text t))) × (env.parse_uuid t ≡ some m.id)) × Known
  unfolding ◌>>=◌
  payload_shown none h = absurd (ground arith)
  payload_shown (some none) h = absurd (ground arith)
  payload_shown (some (some (number n))) h = absurd (ground arith)
  payload_shown (some (some (text t))) h =
      let g = get_merchant_shown (env.parse_uuid t) h in ((t, refl, g.0), g.1)

  bearer_shown :
      (b : Bearer) {s' : Session}
      → get_current_merchant env now b s ≡ (ok (replied m), s')
      → Shows env now b m × Known
  unfolding get_current_merchant
  bearer_shown b h = go b.token refl h
    where
      by_key_shown :
          {s' : Session}
          → by_api_key env now b.api_key s ≡ (ok (replied m), s')
          → Shows env now b m × Known
      by_key_shown h = let g = key_shown b.api_key h in (by_key g.0.0 g.0.1 g.0.2, g.1)

      go :
          (o : Option String) {s' : Session}
          → b.token ≡ o
          → (elim o as (λ x. M (Answer Merchant)) [
            | none ↦ by_api_key env now b.api_key
            | some token ↦ by_token env now token b.api_key
          ])
              s
            ≡ (ok (replied m), s')
          → Shows env now b m × Known
      go none e h = by_key_shown h
      go (some token) e h = elim (Bool-cases (str_eq token "")) [
        | inl q ↦ by_key_shown (rw q at h)
        | inr q ↦
            let g =
              payload_shown (decode_access_token env.jwt env.settings now token) (rw q at h) in
            (by_identifier token g.0.0 e g.0.1 g.0.2, g.1)
      ]

module _ (env : AuthEnvironment) (now : ℕ) where
  LeavesSession-by_api_key : (o : Option String) → LeavesSession (by_api_key env now o)
  LeavesSession-by_api_key none = LeavesSession-pure _
  LeavesSession-by_api_key (some k) = search leaving

  LeavesSession-get_merchant : (o : Option Uuid) → LeavesSession (get_merchant env now o)
  LeavesSession-get_merchant none = LeavesSession-raise _
  LeavesSession-get_merchant (some key) = search leaving

  LeavesSession-by_payload : (o : Option (Option Mid)) → LeavesSession (by_payload env now o)
  LeavesSession-by_payload none = LeavesSession-pure _
  LeavesSession-by_payload (some none) = LeavesSession-pure _
  LeavesSession-by_payload (some (some (number n))) =
      LeavesSession-bind _ _ (LeavesSession-raise _) (λ m. LeavesSession-pure _)
  LeavesSession-by_payload (some (some (text t))) =
      LeavesSession-bind _ _ (LeavesSession-get_merchant (env.parse_uuid t))
        (λ m. LeavesSession-pure _)

  LeavesSession-by_token :
      (token : String) (k : Option String) → LeavesSession (by_token env now token k)
  LeavesSession-by_token token k =
      LeavesSession-if (str_eq token "") _ _ (LeavesSession-by_api_key k)
        (LeavesSession-by_payload (decode_access_token env.jwt env.settings now token))

  -- The authentication reads only.
  pub LeavesSession-get_current_merchant :
      (b : Bearer) → LeavesSession (get_current_merchant env now b)
  unfolding get_current_merchant
  LeavesSession-get_current_merchant b = go b.token
    where
      go :
          (o : Option String)
          → LeavesSession (elim o as (λ x. M (Answer Merchant)) [
            | none ↦ by_api_key env now b.api_key
            | some token ↦ by_token env now token b.api_key
          ])
      go none = LeavesSession-by_api_key b.api_key
      go (some token) = LeavesSession-by_token token b.api_key

-- Whom the authentication lets through, with whatever headers: the merchant is a row of the table
-- and active, and the request carries a valid token with its identifier or its API key. The
-- database stays as it is.
pub get_current_merchant-Shows :
    (env : AuthEnvironment) (now : ℕ) (b : Bearer) (db : Db) {m : Merchant} {db' : Db}
    → with_session (get_current_merchant env now b) db ≡ (ok (replied m), db')
    → Shows env now b m × (m.is_active ≡ true) × IsRow m db.merchants × (db' ≡ db)
unfolding with_session
get_current_merchant-Shows env now b db {m} {db'} h =
    let s : Session = record { stored = db; current = db } in
    let run : Result (Answer Merchant) × Session = get_current_merchant env now b s in
    let g = bearer_shown env now s m b (λ i. ((h i).0, run.1)) in
    (
      g.0,
      g.1.active,
      g.1.row,
      sym (ap (λ (p : Result (Answer Merchant) × Db). p.1) h)
          ∙ ap (λ (t : Session). t.stored) ((LeavesSession-get_current_merchant env now b).same s),
    )
