-- ===== src/Api/Answer.antt =====
-- What an endpoint answers: the status of an `HTTPException`, or its response. An exception that the
-- endpoint does not take is an error of the session's monad.
use payment_gateway_system.Prelude.{ℕ}
use payment_gateway_system.Session.{M, pure}

pub data Answer (A : Type 0) : Type 0 where
  rejected : ℕ → Answer A
  replied : A → Answer A

-- What runs only if nothing was rejected before.
abbrev pub and_then : {A B : Type 0} → (A → M (Answer B)) → Answer A → M (Answer B)
and_then f (rejected status) = pure (rejected status)
and_then f (replied a) = f a

abbrev pub reply : {A : Type 0} → A → M (Answer A)
reply a = pure (replied a)
