-- ===== src/Session/Triples/Basic.antt =====
-- The triples of an action of a session (app/db/session.py), and what a state says of the database.
use payment_gateway_system.Prelude.{◌≡◌, refl, Bool, true, false, if◌then◌else◌}
use payment_gateway_system.Models.Database.{Db, fits_columns, unique_keys}
use payment_gateway_system.Session.{Session, Result, ok, err, M, ◌>>=◌, continue}

abbrev pub Ends :
    {A : Type 0} → (A → Session → Type 0) → (Session → Type 0) → Result A × Session → Type 0
Ends Q E (ok a, s) = Q a s
Ends Q E (err e, s) = E s

pub record Triple {A : Type 0} (P : Session → Type 0) (m : M A) (Q : A → Session → Type 0)
    (E : Session → Type 0) : Type 0 where
  pub at : (s : Session) → P s → Ends Q E (m s)

module _ {A B : Type 0} {R : A → Session → Type 0} {Q : B → Session → Type 0}
    {E : Session → Type 0} where
  bind-Ends :
      (r : Result A) (s : Session) (f : A → M B)
      → Ends R E (r, s)
      → ((a : A) → Triple (R a) (f a) Q E)
      → Ends Q E (continue r f s)
  bind-Ends (ok a) s f h k = (k a).at s h
  bind-Ends (err e) s f h k = h

  pub Triple-bind :
      {P : Session → Type 0} (m : M A) (f : A → M B)
      → Triple P m R E
      → ((a : A) → Triple (R a) (f a) Q E)
      → Triple P (m >>= f) Q E
  unfolding ◌>>=◌
  Triple-bind m f h k = record { at = λ s p. let (r, s') = m s in bind-Ends r s' f (h.at s p) k }

pub Ends-if :
    {A : Type 0} (Q : A → Session → Type 0) (E : Session → Type 0) (b : Bool)
    (x y : Result A × Session)
    → (b ≡ true → Ends Q E x)
    → (b ≡ false → Ends Q E y)
    → Ends Q E (if b then x else y)
Ends-if Q E true x y h k = h refl
Ends-if Q E false x y h k = k refl

-- Nothing is stored yet, and `I` holds of what the session sees.
pub record Working (base : Db) (I : Db → Type 0) (s : Session) : Type 0 where
  pub fresh : s.stored ≡ base
  pub holds : I s.current

-- Everything is stored, and `I` holds of it.
pub record Stored (I : Db → Type 0) (s : Session) : Type 0 where
  pub clean : s.stored ≡ s.current
  pub holds : I s.current

-- `I` holds of what is stored.
pub record Durable (I : Db → Type 0) (s : Session) : Type 0 where
  pub holds : I s.stored

-- `I` holds of a database that meets every constraint of the schema.
pub record Kept (I : Db → Type 0) (db : Db) : Type 0 where
  pub holds : I db
  pub fits : fits_columns db ≡ true
  pub unique : unique_keys db ≡ true

-- Nothing was stored.
pub record Untouched (base : Db) (s : Session) : Type 0 where
  pub fresh : s.stored ≡ base
