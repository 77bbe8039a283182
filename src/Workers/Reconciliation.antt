-- ===== src/Workers/Reconciliation.antt =====
-- app/workers/tasks.py: the sweep for intents that are stuck in processing.
pub mod Rules
use payment_gateway_system.Prelude.{ℕ, zero, suc, ◌+◌, ◌*◌, Bool, ◌&&◌, List, [], ◌∷◌, map, ltb}
use payment_gateway_system.Prelude.Rows.{select, length}
use payment_gateway_system.Models.Payment.{Uuid, PaymentStatus, PaymentIntent, eq_status}
use payment_gateway_system.Session.{M, ◌>>=◌, pure, read}

-- An hour, where the times of the rows are in microseconds.
abbrev pub stuck_after : ℕ
stuck_after = 3600 * 1000000

-- `updated_at < now - timedelta(hours=1)`
abbrev pub is_stuck : ℕ → PaymentIntent → Bool
is_stuck now i = eq_status i.status PaymentStatus.processing && ltb (i.updated_at + stuck_after) now

-- `LIMIT n`. The statement asks for no order; the rows come in the order of the table.
abbrev pub limit : {A : Type 0} → ℕ → List A → List A
limit zero xs = []
limit (suc n) [] = []
limit (suc n) (x ∷ xs) = x ∷ limit n xs

-- The identifiers that the sweep flags.
unfoldable pub stuck_intents : ℕ → M (List Uuid)
stuck_intents now = do
  rows ← read (λ db. limit 500 (select (is_stuck now) db.intents))
  pure (map (λ i. i.id) rows)

-- What the task reports.
abbrev pub reconcile_stuck_intents : ℕ → M ℕ
reconcile_stuck_intents now = stuck_intents now >>= λ flagged. pure (length flagged)
