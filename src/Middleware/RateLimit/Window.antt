-- ===== src/Middleware/RateLimit/Window.antt =====
-- How many requests of a caller a window lets through (app/middleware/rate_limit.py).
use payment_gateway_system.Prelude.{
  ℕ, suc, ◌-◌, String, true, false, ◌≡◌, refl, sym, ap, subst, ◌∙◌, List, [], ◌∷◌, ◌&&◌, arith, leb,
  ltb, str_eq, eq_iff, Bool-cases, inl, inr, if◌then◌else◌,
}
use payment_gateway_system.Middleware.RateLimit.{
  Counters, IsCounting, Call, request_limit, counter_key, quota, bucket, limit_request,
}

abbrev pub min_ℕ : ℕ → ℕ → ℕ
min_ℕ a b = if leb a b then a else b

allowed-quota : (n b : ℕ) → (quota (suc n) b).allowed ≡ ltb n request_limit
allowed-quota n b = ground arith

next_passed :
    (a n : ℕ)
    → (if ltb n request_limit
        then suc (min_ℕ a (request_limit - suc n))
        else min_ℕ a (request_limit - suc n))
      ≡ min_ℕ (suc a) (request_limit - n)
next_passed a n = ground arith

module _ (counters : Counters) (str : ℕ → String) (key : String) where
  -- The requests that count under the key, and those of them that go through.
  unfoldable pub attempts : List Call → ℕ
  attempts [] = 0
  attempts (r ∷ rs) =
      let rest = attempts rs in if str_eq (counter_key counters str r) key then suc rest else rest

  unfoldable pub passed : List Call → counters.Store → ℕ
  passed [] s = 0
  passed (r ∷ rs) s =
      let (q, s') = limit_request counters str r s in
      let rest = passed rs s' in
      if str_eq (counter_key counters str r) key && q.allowed then suc rest else rest

  module _ (laws : IsCounting counters) where
    same_key :
        (r : Call)
        → str_eq (counter_key counters str r) key ≡ true
        → counter_key counters str r ≡ key
    same_key r e = (eq_iff (counter_key counters str r) key).0 e

    count-limit_request :
        (r : Call) (s : counters.Store)
        → str_eq (counter_key counters str r) key ≡ true
        → counters.count key (limit_request counters str r s).1 ≡ suc (counters.count key s)
    unfolding limit_request
    count-limit_request r s e =
        let k = counter_key counters str r in
        laws.count-expire key k _ (counters.incr k s).1
        ∙ subst (λ k'. counters.count key (counters.incr k' s).1 ≡ suc (counters.count key s))
            (sym (same_key r e)) (laws.count-incr key s)

    count-limit_request_other :
        (r : Call) (s : counters.Store)
        → str_eq (counter_key counters str r) key ≡ false
        → counters.count key (limit_request counters str r s).1 ≡ counters.count key s
    unfolding limit_request
    count-limit_request_other r s e =
        let k = counter_key counters str r in
        laws.count-expire key k _ (counters.incr k s).1 ∙ laws.count-incr_other key k s e

    allowed-limit_request :
        (r : Call) (s : counters.Store)
        → str_eq (counter_key counters str r) key ≡ true
        → (limit_request counters str r s).0.allowed ≡ ltb (counters.count key s) request_limit
    unfolding limit_request
    allowed-limit_request r s e =
        ap (λ n. (quota n (bucket r)).allowed) (laws.incr-reply (counter_key counters str r) s)
        ∙ subst
            (λ k.
              (quota (suc (counters.count k s)) (bucket r)).allowed
              ≡ ltb (counters.count key s) request_limit)
            (sym (same_key r e)) (allowed-quota (counters.count key s) (bucket r))

    -- Requests in any order, of any callers at any times, while no counter expires: of those that
    -- count under a key, as many go through as the key has left of its 120, and all of them if they
    -- are no more than that.
    pub passed-limit :
        (rs : List Call) (s : counters.Store)
        → passed rs s ≡ min_ℕ (attempts rs) (request_limit - counters.count key s)
    unfolding passed attempts
    passed-limit [] s = ground arith
    passed-limit (r ∷ rs) s =
        let ih = passed-limit rs (limit_request counters str r s).1 in
        elim (Bool-cases (str_eq (counter_key counters str r) key)) [
          | inl e ↦
              rw (e, allowed-limit_request r s e, ih, count-limit_request r s e)
                (next_passed (attempts rs) (counters.count key s))
          | inr e ↦ rw (e, ih, count-limit_request_other r s e) refl
        ]
