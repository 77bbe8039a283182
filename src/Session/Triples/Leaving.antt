-- ===== src/Session/Triples/Leaving.antt =====
-- The actions that leave a session as it is, and the rules for what follows them (app/db/session.py).
use payment_gateway_system.Prelude.{
  ◌∙◌, ◌≡◌, refl, Bool, true, false, Option, none, some, List, [], ◌∷◌, if◌then◌else◌,
}
use payment_gateway_system.Models.Database.{Db}
use payment_gateway_system.Session.{
  Session, Result, Error, ok, err, M, ◌>>=◌, catch, continue, recover, pure, raise, lift, or_raise,
  scalar_one, scalar_one_or_none, read, guard,
}
use payment_gateway_system.Session.Triples.Basic.{
  Ends, Triple, Working, Stored, Durable, Kept, Untouched,
}

-- An action that leaves the session as it is, whatever it returns or raises.
pub record LeavesSession {A : Type 0} (m : M A) : Type 0 where
  pub same : (s : Session) → (m s).1 ≡ s

module _ {A : Type 0} where
  pub LeavesSession-pure : (a : A) → LeavesSession (pure a)
  LeavesSession-pure a = record { same = λ s. refl }

  pub LeavesSession-raise : (e : Error) → LeavesSession (raise {A = A} e)
  LeavesSession-raise e = record { same = λ s. refl }

  pub LeavesSession-lift : (r : Result A) → LeavesSession (lift r)
  LeavesSession-lift r = record { same = λ s. refl }

  pub LeavesSession-read : (f : Db → A) → LeavesSession (read f)
  LeavesSession-read f = record { same = λ s. refl }

  pub LeavesSession-or_raise : (o : Option A) (e : Error) → LeavesSession (or_raise o e)
  LeavesSession-or_raise none e = record { same = λ s. refl }
  LeavesSession-or_raise (some a) e = record { same = λ s. refl }

  pub LeavesSession-scalar_one_or_none : (rows : List A) → LeavesSession (scalar_one_or_none rows)
  LeavesSession-scalar_one_or_none [] = record { same = λ s. refl }
  LeavesSession-scalar_one_or_none (x ∷ []) = record { same = λ s. refl }
  LeavesSession-scalar_one_or_none (x ∷ y ∷ xs) = record { same = λ s. refl }

  pub LeavesSession-scalar_one : (rows : List A) → LeavesSession (scalar_one rows)
  LeavesSession-scalar_one [] = record { same = λ s. refl }
  LeavesSession-scalar_one (x ∷ []) = record { same = λ s. refl }
  LeavesSession-scalar_one (x ∷ y ∷ xs) = record { same = λ s. refl }

pub LeavesSession-guard : (b : Bool) (e : Error) → LeavesSession (guard b e)
LeavesSession-guard b e = record { same = λ s. refl }

pub LeavesSession-if :
    {A : Type 0} (b : Bool) (m n : M A)
    → LeavesSession m
    → LeavesSession n
    → LeavesSession (if b then m else n)
LeavesSession-if true m n k l = k
LeavesSession-if false m n k l = l

module _ {A B : Type 0} where
  bind-same :
      (r : Result A) (s t : Session) (f : A → M B)
      → t ≡ s
      → ((a : A) → LeavesSession (f a))
      → (continue r f t).1 ≡ s
  bind-same (ok a) s t f e k = (k a).same t ∙ e
  bind-same (err x) s t f e k = e

  pub LeavesSession-bind :
      (m : M A) (f : A → M B)
      → LeavesSession m
      → ((a : A) → LeavesSession (f a))
      → LeavesSession (m >>= f)
  unfolding ◌>>=◌
  LeavesSession-bind m f l k = record {
    same = λ s. let (r, t) = m s in bind-same r s t f (l.same s) k;
  }

pub ruleset leaving = (
  LeavesSession-bind, LeavesSession-pure, LeavesSession-raise, LeavesSession-lift,
  LeavesSession-read, LeavesSession-or_raise, LeavesSession-scalar_one_or_none,
  LeavesSession-scalar_one, LeavesSession-guard,
)

module _ {A : Type 0} where
  leaving-Ends :
      (base : Db) (I : Db → Type 0) (r : Result A) (s t : Session)
      → t ≡ s
      → Working base I s
      → Ends (λ a. Working base I) (Untouched base) (r, t)
  leaving-Ends base I (ok a) s t e p = rw e p
  leaving-Ends base I (err x) s t e p = record { fresh = rw e p.fresh }

  pub Triple-leaves :
      {base : Db} {I : Db → Type 0} (m : M A)
      → LeavesSession m
      → Triple (Working base I) m (λ a. Working base I) (Untouched base)
  Triple-leaves {base} {I} m l = record {
    at = λ s p. let (r, t) = m s in leaving-Ends base I r s t (l.same s) p;
  }

  pub Triple-pure-Stored :
      {base : Db} {I : Db → Type 0} (a : A)
      → Triple (Stored I) (pure a) (λ b. Durable I) (Untouched base)
  Triple-pure-Stored a = record { at = λ s p. record { holds = rw p.clean p.holds } }

  pub Triple-pure-clean :
      {base : Db} {I : Db → Type 0} (a : A)
      → Triple (Stored I) (pure a) (λ b. Stored I) (Untouched base)
  Triple-pure-clean a = record { at = λ s p. p }

  Stored-Ends :
      (base : Db) (I : Db → Type 0) (r : Result A) (s : Session)
      → Ends (λ (a : A). Stored I) (Untouched base) (r, s)
      → Ends (λ (a : A). Durable I) (Untouched base) (r, s)
  Stored-Ends base I (ok a) s p = record { holds = rw p.clean p.holds }
  Stored-Ends base I (err e) s p = p

  pub Triple-Durable :
      {P : Session → Type 0} {base : Db} {I : Db → Type 0} (m : M A)
      → Triple P m (λ a. Stored I) (Untouched base)
      → Triple P m (λ a. Durable I) (Untouched base)
  Triple-Durable {base = base} {I = I} m h = record {
    at = λ s p. let (r, t) = m s in Stored-Ends base I r t (h.at s p);
  }

  same-Ends :
      (P E : Session → Type 0) (r : Result A) (s t : Session)
      → t ≡ s
      → P s
      → (P s → E s)
      → Ends (λ (a : A). P) E (r, t)
  same-Ends P E (ok a) s t e p k = rw e p
  same-Ends P E (err x) s t e p k = rw e (k p)

  -- An action that leaves the session, from any description of it.
  pub Triple-same :
      {P E : Session → Type 0} (m : M A)
      → LeavesSession m
      → ((s : Session) → P s → E s)
      → Triple P m (λ a. P) E
  Triple-same {P} {E} m l k = record {
    at = λ s p. let (r, t) = m s in same-Ends P E r s t (l.same s) p (k s);
  }

  recover-Ends :
      {Q : A → Session → Type 0} (R E : Session → Type 0) (r : Result A) (h : Error → M A)
      (s : Session)
      → Ends Q R (r, s)
      → ((e : Error) → Triple R (h e) Q E)
      → Ends Q E (recover r h s)
  recover-Ends R E (ok a) h s p k = p
  recover-Ends R E (err x) h s p k = (k x).at s p

  -- A handler that starts from what the action leaves when it raises.
  pub Triple-catch_from :
      {P R E : Session → Type 0} {Q : A → Session → Type 0} (m : M A) (h : Error → M A)
      → Triple P m Q R
      → ((e : Error) → Triple R (h e) Q E)
      → Triple P (catch m h) Q E
  unfolding catch
  Triple-catch_from {R = R} {E = E} m h p k = record {
    at = λ s i. let (r, t) = m s in recover-Ends R E r h t (p.at s i) k;
  }

  pub Triple-pure-Kept :
      {base : Db} {I J : Db → Type 0} (a : A)
      → ((db : Db) → Kept I db → J db)
      → Triple (Stored (Kept I)) (pure a) (λ b. Durable J) (Untouched base)
  Triple-pure-Kept a k = record { at = λ s p. record { holds = k s.stored (rw p.clean p.holds) } }

  -- A return before anything was written.
  pub Triple-pure-Durable :
      {base : Db} {I J : Db → Type 0} (a : A)
      → I base
      → Triple (Working base J) (pure a) (λ b. Durable I) (Untouched base)
  Triple-pure-Durable a i = record { at = λ s p. record { holds = rw p.fresh i } }

  pub Triple-if :
      {P : Session → Type 0} {Q : A → Session → Type 0} {E : Session → Type 0} (b : Bool)
      (m n : M A)
      → (b ≡ true → Triple P m Q E)
      → (b ≡ false → Triple P n Q E)
      → Triple P (if b then m else n) Q E
  Triple-if true m n km kn = km refl
  Triple-if false m n km kn = kn refl
