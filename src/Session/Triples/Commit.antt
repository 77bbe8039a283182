-- ===== src/Session/Triples/Commit.antt =====
-- Writes, commits, handlers, and the end of a session (app/db/session.py).
use payment_gateway_system.Prelude.{◌≢◌, Bool-cases, inl, inr, ◌≡◌, refl}
use payment_gateway_system.Models.Database.{Db, fits_columns, unique_keys}
use payment_gateway_system.Session.{
  Session, Result, Error, ok, err, M, catch, recover, write, commit, with_session,
}
use payment_gateway_system.Session.Triples.Basic.{
  Ends, Triple, Ends-if, Working, Stored, Durable, Kept, Untouched,
}
use payment_gateway_system.Session.Triples.Leaving.{LeavesSession}

commit-Ends :
    {base : Db} {I : Db → Type 0} (s : Session)
    → Working base I s
    → Ends (λ u. Stored I) (Untouched base) (commit s)
unfolding commit
commit-Ends s p = elim (Bool-cases (fits_columns s.current)) [
  | inl e ↦ elim (Bool-cases (unique_keys s.current)) [
    | inl u ↦ rw (e, u) (record { clean = refl; holds = p.holds })
    | inr u ↦ rw (e, u) (record { fresh = p.fresh })
  ]
  | inr e ↦ rw e (record { fresh = p.fresh })
]

module _ {A : Type 0} where
  catch-Ends :
      (base : Db) (I : Db → Type 0) (r : Result A) (h : Error → M A) (s t : Session)
      → t ≡ s
      → Working base I s
      → ((e : Error) (u : Session)
          → u.stored ≡ base
          → Untouched base (h e u).1 × ((a : A) → (h e u).0 ≢ ok a))
      → Ends (λ (a : A). Working base I) (Untouched base) (recover r h t)
  catch-Ends base I (ok a) h s t e w k = rw e w
  catch-Ends base I (err x) h s t e w k =
      raised (h x t).0 (h x t).1 (k x t (rw e w.fresh)).0 (k x t (rw e w.fresh)).1
    where
      raised :
          (r : Result A) (u : Session)
          → Untouched base u
          → ((a : A) → r ≢ ok a)
          → Ends (λ a. Working base I) (Untouched base) (r, u)
      raised (ok a) u q n = absurd (n a refl)
      raised (err x) u q n = q

  -- A handler that raises again and stores nothing.
  pub Triple-catch :
      {base : Db} {I : Db → Type 0} (m : M A) (h : Error → M A)
      → LeavesSession m
      → ((e : Error) (u : Session)
          → u.stored ≡ base
          → Untouched base (h e u).1 × ((a : A) → (h e u).0 ≢ ok a))
      → Triple (Working base I) (catch m h) (λ a. Working base I) (Untouched base)
  unfolding catch
  Triple-catch {base} {I} m h l k = record {
    at = λ s w. let (r, t) = m s in catch-Ends base I r h s t (l.same s) w k;
  }

pub Triple-commit :
    {base : Db} {I : Db → Type 0} → Triple (Working base I) commit (λ u. Stored I) (Untouched base)
Triple-commit = record { at = λ s p. commit-Ends s p }

pub Triple-write :
    {base : Db} {I : Db → Type 0} (f : Db → Db)
    → ((db : Db) → I db → I (f db))
    → Triple (Working base I) (write f) (λ u. Working base I) (Untouched base)
Triple-write f h = record { at = λ s p. record { fresh = p.fresh; holds = h s.current p.holds } }

pub Triple-write_to :
    {base : Db} {I J : Db → Type 0} (f : Db → Db)
    → ((db : Db) → I db → J (f db))
    → Triple (Working base I) (write f) (λ u. Working base J) (Untouched base)
Triple-write_to f h = record { at = λ s p. record { fresh = p.fresh; holds = h s.current p.holds } }

-- A request that ends well has stored a database of which `J` holds, and one that raises has
-- changed nothing.
pub with_session-Ends :
    {A : Type 0} {I J : Db → Type 0} (m : M A) (db : Db)
    → Triple (Working db I) m (λ a. Durable J) (Untouched db)
    → I db
    → J db
    → J (with_session m db).1
      × ((e : Error) → (with_session m db).0 ≡ err e → (with_session m db).1 ≡ db)
unfolding with_session
with_session-Ends {A} {I} {J} m db h i j =
    ended (m start).0 (m start).1 (h.at start (record { fresh = refl; holds = i }))
  where
    start : Session
    start = record { stored = db; current = db }

    ended :
        (r : Result A) (s : Session)
        → Ends (λ (a : A). Durable J) (Untouched db) (r, s)
        → J s.stored × ((e : Error) → r ≡ err e → s.stored ≡ db)
    ended (ok a) s q = (q.holds, λ e p. cc)
    ended (err x) s q = (rw q.fresh j, λ e p. q.fresh)

commit-Kept :
    {base : Db} {I : Db → Type 0} (s : Session)
    → Working base I s
    → Ends (λ u. Stored (Kept I)) (Untouched base) (commit s)
unfolding commit
commit-Kept s w =
    Ends-if _ _ (fits_columns s.current) _ _
      (λ e.
        Ends-if _ _ (unique_keys s.current) _ _
          (λ u. record { clean = refl; holds = record { holds = w.holds; fits = e; unique = u } })
          (λ u. record { fresh = w.fresh }))
      (λ e. record { fresh = w.fresh })

pub Triple-commit-Kept :
    {base : Db} {I : Db → Type 0}
    → Triple (Working base I) commit (λ u. Stored (Kept I)) (Untouched base)
Triple-commit-Kept = record { at = λ s w. commit-Kept s w }
