-- ===== src/Application/Keeps.antt =====
-- A statement about the database that the services keep is kept by the endpoints (app/api/v1).
use payment_gateway_system.Prelude.{◌≡◌, refl}
use payment_gateway_system.Models.Database.{Db}
use payment_gateway_system.Session.{Session, Result, ok, err, M, pure, with_session}
use payment_gateway_system.Session.Triples.{Ends, Triple, Triple-same, Kept, LeavesSession}
use payment_gateway_system.Services.Webhook.Redelivery.{start}

-- Nothing has happened in this session of the database.
pub record IsFresh (base : Db) (s : Session) : Type 0 where
  pub begun : s ≡ start base

-- What is stored is in order.
pub record Safe (I : Db → Type 0) (s : Session) : Type 0 where
  pub holds : Kept I s.stored

module _ (base : Db) (I : Db → Type 0) (k : Kept I base) where
  pub fresh-Safe : (s : Session) → IsFresh base s → Safe I s
  fresh-Safe s f = record { holds = subst_stored f.begun }
    where
      subst_stored : s ≡ start base → Kept I s.stored
      subst_stored e = rw e k

  pub Safe-both :
      {A : Type 0} (r : Result A) (s : Session)
      → Safe I s
      → Ends (λ (a : A). Safe I) (Safe I) (r, s)
  Safe-both (ok a) s h = h
  Safe-both (err e) s h = h

  -- An action of a fresh session whose end is known.
  pub Triple-known :
      {A : Type 0} (m : M A)
      → Kept I (with_session m base).1
      → Triple (IsFresh base) m (λ a. Safe I) (Safe I)
  unfolding with_session
  Triple-known m h = record {
    at = λ s f. rw f.begun (Safe-both (m (start base)).0 (m (start base)).1 (record { holds = h }));
  }

  pub Safe-leaves :
      {A : Type 0} (m : M A) → LeavesSession m → Triple (Safe I) m (λ a. Safe I) (Safe I)
  Safe-leaves m l = Triple-same m l (λ s h. h)

  pub fresh-leaves :
      {A : Type 0} (m : M A)
      → LeavesSession m
      → Triple (IsFresh base) m (λ a. IsFresh base) (Safe I)
  fresh-leaves m l = Triple-same m l fresh-Safe

  pub done : {A : Type 0} (a : A) → Triple (IsFresh base) (pure a) (λ b. Safe I) (Safe I)
  done a = record { at = λ s f. fresh-Safe s f }

  pub with_session-Safe :
      {A : Type 0} (m : M A)
      → Triple (IsFresh base) m (λ a. Safe I) (Safe I)
      → Kept I (with_session m base).1
  unfolding with_session
  with_session-Safe m h =
      go (m (start base)).0 (m (start base)).1 (h.at (start base) (record { begun = refl }))
    where
      go :
          {A : Type 0} (r : Result A) (s : Session)
          → Ends (λ (a : A). Safe I) (Safe I) (r, s)
          → Kept I s.stored
      go (ok a) s e = e.holds
      go (err x) s e = e.holds
