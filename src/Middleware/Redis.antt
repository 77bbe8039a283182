-- ===== src/Middleware/Redis.antt =====
-- The Redis commands that app/middleware sends, as an interface: the store is not part of the
-- repository, so its commands are parameters and their documented behaviour is a record of laws.
use payment_gateway_system.Prelude.{String, Bool, true, false, ◌≡◌, Option, none, some}

-- `SET key value NX`, whose reply says whether the key was set, `SET key value XX`, `GET` and `DEL`.
pub record Redis (V : Type 0) : Type 1 where
  pub Store : Type 0
  pub get : String → Store → Option V
  pub set_nx : String → V → Store → Bool × Store
  pub set_xx : String → V → Store → Store
  pub delete : String → Store → Store

-- The laws hold while no key expires.
pub record IsRedis {V : Type 0} (r : Redis V) : Type 0 where
  pub set_nx-free :
      (k : String) (v : V) (s : r.Store) → r.get k s ≡ none → (r.set_nx k v s).0 ≡ true
  pub get-set_nx :
      (k : String) (v : V) (s : r.Store) → r.get k s ≡ none → r.get k (r.set_nx k v s).1 ≡ some v
  pub set_nx-taken :
      (k : String) (v u : V) (s : r.Store) → r.get k s ≡ some u → r.set_nx k v s ≡ (false, s)
  pub get-set_xx :
      (k : String) (v u : V) (s : r.Store) → r.get k s ≡ some u → r.get k (r.set_xx k v s) ≡ some v
