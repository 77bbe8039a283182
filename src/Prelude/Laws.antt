-- ===== src/Prelude/Laws.antt =====
-- Laws of the tables of Rows: what a query finds after an update, and what a unique column keeps.
use payment_gateway_system.Prelude.Rows.{IsRow, select, update, any, all, distinct}
use mathlib.Core.Path.{◌≡◌, refl}
use mathlib.Core.Bool.{Bool, true, false}
use mathlib.Core.List.{List, [], ◌∷◌}
use Prim.Native.Nat.{ℕ}
use payment_gateway_system.Prelude.Tests.{◌==◌, Bool-cases}
use mathlib.Core.Logic.{inl, inr}
use native.Mathlib.Omega.{arith}

module _ {ℓ} {A : Type ℓ} where
  -- An update that the query does not see commutes with it.
  pub select-update :
      (p q : A → Bool) (f : A → A) (xs : List A)
      → ((x : A) → p (f x) ≡ p x)
      → select p (update q f xs) ≡ update q f (select p xs)
  unfolding select update
  select-update p q f [] h = refl
  select-update p q f (x ∷ xs) h = ground (arith, h x, select-update p q f xs h)

  pub all-update :
      (p q : A → Bool) (f : A → A) (xs : List A)
      → ((x : A) → p (f x) ≡ p x)
      → all p (update q f xs) ≡ all p xs
  unfolding all update
  all-update p q f [] h = refl
  all-update p q f (x ∷ xs) h = ground (arith, h x, all-update p q f xs h)

  -- A query that the update does not see, and that found one row that the update changes.
  pub select-update_one :
      (p q : A → Bool) (f : A → A) (xs : List A) {x : A}
      → ((y : A) → p (f y) ≡ p y)
      → select p xs ≡ x ∷ []
      → q x ≡ true
      → select p (update q f xs) ≡ f x ∷ []
  unfolding update
  select-update_one p q f xs h e t = rw (select-update p q f xs h, e, t) refl

module _ {ℓ} {A : Type ℓ} where
  pub any-update :
      (p q : A → Bool) (f : A → A) (xs : List A)
      → ((x : A) → p (f x) ≡ p x)
      → any p (update q f xs) ≡ any p xs
  unfolding any update
  any-update p q f [] h = refl
  any-update p q f (x ∷ xs) h = ground (arith, h x, any-update p q f xs h)

  pub any_mono :
      (p q : A → Bool) (xs : List A)
      → ((x : A) → p x ≡ true → q x ≡ true)
      → any p xs ≡ true
      → any q xs ≡ true
  unfolding any
  any_mono p q [] h e = e
  any_mono p q (x ∷ xs) h e = ground (arith, h x, any_mono p q xs h)

  pub select-head :
      (p : A → Bool) (xs : List A) {x : A} {rest : List A} → select p xs ≡ x ∷ rest → p x ≡ true
  unfolding select
  select-head p [] e = cc
  select-head p (y ∷ xs) {x} {rest} e = ground (arith, select-head p xs {x = x} {rest = rest})

  -- A query that is narrower than a test that no row meets.
  pub select_none :
      (p q : A → Bool) (xs : List A)
      → ((x : A) → p x ≡ true → q x ≡ true)
      → any q xs ≡ false
      → select p xs ≡ []
  unfolding any select
  select_none p q [] h e = refl
  select_none p q (x ∷ xs) h e = ground (arith, h x, select_none p q xs h)

  -- A row that a query finds meets any test that holds of it.
  pub any-select :
      (p q : A → Bool) (xs : List A) {x : A} {rest : List A}
      → select p xs ≡ x ∷ rest
      → q x ≡ true
      → any q xs ≡ true
  unfolding any select
  any-select p q [] e h = cc
  any-select p q (y ∷ xs) {x} {rest} e h = ground (arith, any-select p q xs {x = x} {rest = rest})

pub IsRow-select :
    {A : Type 0} (p : A → Bool) (xs : List A) {x : A} {rest : List A}
    → select p xs ≡ x ∷ rest
    → IsRow x xs
unfolding select
IsRow-select p [] e = cc
IsRow-select p (y ∷ xs) {x} {rest} e = elim (Bool-cases (p y)) [
  | inl q ↦ inl (cc (rw q at e))
  | inr q ↦ inr (IsRow-select p xs (rw q at e))
]

module _ {A : Type 0} (same : A → A → Bool) where
  pub distinct_first :
      (y : A) (xs : List A) → distinct same (y ∷ xs) ≡ true → any (same y) xs ≡ false
  unfolding distinct
  distinct_first y xs d = ground arith

  pub distinct_rest :
      (y : A) (xs : List A) → distinct same (y ∷ xs) ≡ true → distinct same xs ≡ true
  unfolding distinct
  distinct_rest y xs d = ground arith

module _ {A : Type 0} (p : A → Bool) (same : A → A → Bool) where
  any-IsRow : (q : A → Bool) (xs : List A) (x : A) → IsRow x xs → q x ≡ true → any q xs ≡ true
  unfolding any
  any-IsRow q [] x r h = absurd r
  any-IsRow q (y ∷ xs) x (inl e) h = rw (rw e at h) refl
  any-IsRow q (y ∷ xs) x (inr r) h = ground (arith, any-IsRow q xs x r h)

  -- A query that two different rows cannot both meet finds the row that meets it, and no other.
  pub select_unique :
      ((a b : A) → p a ≡ true → p b ≡ true → same a b ≡ true)
      → (xs : List A) (x : A) → IsRow x xs
      → distinct same xs ≡ true
      → p x ≡ true
      → select p xs ≡ x ∷ []
  unfolding select distinct
  select_unique s [] x r d h = absurd r
  select_unique s (y ∷ xs) x (inl e) d h =
      let g : p y ≡ true = rw e at h in
      rw (g, select_none p (same y) xs (λ z k. s y z g k) (distinct_first same y xs d)) (rw e refl)
  select_unique s (y ∷ xs) x (inr r) d h = elim (Bool-cases (p y)) [
    | inl g ↦ absurd (differ (any-IsRow (same y) xs x r (s y x g h)) (distinct_first same y xs d))
    | inr g ↦ rw g (select_unique s xs x r (distinct_rest same y xs d) h)
  ]
    where
      differ : {b : Bool} → b ≡ true → ¬ (b ≡ false)
      differ t f = cc

pub ==_refl : (n : ℕ) → (n == n) ≡ true
==_refl n = ground arith

module _ {A : Type 0} where
  any_ext : (p q : A → Bool) (xs : List A) → ((x : A) → p x ≡ q x) → any p xs ≡ any q xs
  unfolding any
  any_ext p q [] h = refl
  any_ext p q (x ∷ xs) h = rw (h x, any_ext p q xs h) refl

  -- An update of what the column does not hold keeps the column as it is.
  pub distinct-update :
      (same : A → A → Bool) (q : A → Bool) (f : A → A) (xs : List A)
      → ((x y : A) → same (f x) y ≡ same x y)
      → ((x y : A) → same x (f y) ≡ same x y)
      → distinct same (update q f xs) ≡ distinct same xs
  unfolding distinct update
  distinct-update same q f [] l r = refl
  distinct-update same q f (x ∷ xs) l r = elim (Bool-cases (q x)) [
    | inl e ↦
        rw
          (
            e,
            any-update (same (f x)) q f xs (r (f x)),
            any_ext (same (f x)) (same x) xs (l x),
            distinct-update same q f xs l r,
          )
          refl
    | inr e ↦ rw (e, any-update (same x) q f xs (r x), distinct-update same q f xs l r) refl
  ]
