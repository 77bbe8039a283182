-- ===== src/Session.antt =====
-- A request's database session (app/db/session.py), as a monad of state and exceptions.
--
-- `stored` is what the database holds, `current` what this session sees: its own uncommitted
-- writes too. `FOR UPDATE` locks serialise the transactions on a row, so a request runs from its
-- first lock to its commit or rollback as one function.
pub mod Triples
use payment_gateway_system.Prelude.{Bool, Option, none, some, List, [], ◌∷◌, if◌then◌else◌}
use payment_gateway_system.Models.Database.{Db, fits_columns, unique_keys}

-- The exceptions that the services raise, and those of the database that they let through.
pub data Error : Type 0 where
  invalid_state_transition ledger_error order_not_found already_finalised : Error
  order_idempotency_reuse transaction_not_found amount_mismatch : Error
  signature_error timestamp_error : Error
  no_result_found multiple_results_found integrity_error data_error unexpected : Error

pub data Result {ℓ} (A : Type ℓ) : Type ℓ where
  ok : A → Result A
  err : Error → Result A

pub record Session : Type 0 where
  pub stored : Db
  pub current : Db

abbrev pub M : Type 0 → Type 0
M A = Session → Result A × Session

abbrev pub continue : {A B : Type 0} → Result A → (A → M B) → M B
continue (ok a) f s = f a s
continue (err e) f s = (err e, s)

abbrev pub recover : {A : Type 0} → Result A → (Error → M A) → M A
recover (ok a) h s = (ok a, s)
recover (err e) h s = h e s

infixl 5 ◌>>=◌ ◌>>◌
unfoldable pub ◌>>=◌ : {A B : Type 0} → M A → (A → M B) → M B
◌>>=◌ m f s = let (r, s') = m s in continue r f s'

abbrev pub ◌>>◌ : {A B : Type 0} → M A → M B → M B
m >> k = m >>= λ _. k

module _ {A : Type 0} where
  abbrev pub pure : A → M A
  pure a s = (ok a, s)

  abbrev pub raise : Error → M A
  raise e s = (err e, s)

  abbrev pub lift : Result A → M A
  lift r s = (r, s)

  abbrev pub read : (Db → A) → M A
  read f s = (ok (f s.current), s)

  abbrev pub or_raise : Option A → Error → M A
  or_raise none e = raise e
  or_raise (some a) e = pure a

  -- `Result.scalar_one_or_none` and `Result.scalar_one` of the rows that a query selects.
  abbrev pub scalar_one_or_none : List A → M (Option A)
  scalar_one_or_none [] s = (ok none, s)
  scalar_one_or_none (x ∷ []) s = (ok (some x), s)
  scalar_one_or_none (x ∷ y ∷ xs) s = (err multiple_results_found, s)

  abbrev pub scalar_one : List A → M A
  scalar_one [] = raise no_result_found
  scalar_one (x ∷ []) = pure x
  scalar_one (x ∷ y ∷ xs) = raise multiple_results_found

abbrev pub write : (Db → Db) → M (Unit {0})
write f s = (ok tt, record s { current = f s.current })

abbrev pub guard : Bool → Error → M (Unit {0})
guard b e s = (if b then ok tt else err e, s)

-- A commit flushes the pending rows, and fails if a constraint of the schema does not hold.
unfoldable pub commit : M (Unit {0})
commit s =
    if fits_columns s.current
    then if unique_keys s.current
      then (ok tt, record { stored = s.current; current = s.current })
      else (err integrity_error, s)
    else (err data_error, s)

unfoldable pub rollback : M (Unit {0})
rollback s = (ok tt, record { stored = s.stored; current = s.stored })

-- `get_db_session`: a request gets a fresh session, rolled back on an exception. What was not
-- committed is lost when the session is closed.
unfoldable pub with_session : {A : Type 0} → M A → Db → Result A × Db
with_session m db = let (r, s) = m (record { stored = db; current = db }) in (r, s.stored)

-- `try: m except: h`, where `h` is given the exception and raises again what it does not handle.
unfoldable pub catch : {A : Type 0} → M A → (Error → M A) → M A
catch m h s = let (r, s') = m s in recover r h s'
