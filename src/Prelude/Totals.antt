-- ===== src/Prelude/Totals.antt =====
-- Sums over the rows of a table, and what an update by key adds to one.
use mathlib.Core.Path.{◌≡◌, refl, sym, subst}
use mathlib.Core.Bool.{Bool, true, false, ◌&&◌}
use mathlib.Core.List.{List, [], ◌∷◌}
use mathlib.Core.Logic.{inl, inr}
use Prim.Native.Nat.{ℕ}
use native.Mathlib.Omega.{arith}
use payment_gateway_system.Prelude.Tests.{◌==◌, Bool-cases, if◌then◌else◌}
use payment_gateway_system.Prelude.Int.{ℤ, pos, ◌+ℤ◌, int_laws}
use payment_gateway_system.Prelude.Keys.{row_of_none, update_none}
use payment_gateway_system.Prelude.Laws.{==_refl, distinct_first, distinct_rest}
use payment_gateway_system.Prelude.Rows.{IsRow, update, any, distinct}

-- SELECT sum(f)
unfoldable pub total : {A : Type 0} → (A → ℤ) → List A → ℤ
total f [] = pos 0
total f (x ∷ xs) = total f xs +ℤ f x

module _ {A : Type 0} where
  pub total-ext : (f g : A → ℤ) (xs : List A) → ((x : A) → f x ≡ g x) → total f xs ≡ total g xs
  unfolding total
  total-ext f g [] h = refl
  total-ext f g (x ∷ xs) h = rw (h x, total-ext f g xs h) refl

module _ {A : Type 0} (key : A → ℕ) where
  absent :
      (x : A) (k : ℕ) (xs : List A)
      → (key x == k) ≡ true
      → any (λ y. key x == key y) xs ≡ false
      → any (λ y. key y == k) xs ≡ false
  unfolding any
  absent x k [] e h = refl
  absent x k (y ∷ xs) e h = ground (arith, absent x k xs e)

  present :
      (p : A → Bool) (k : ℕ) (xs : List A)
      → any (λ y. key y == k) xs ≡ false
      → any (λ y. p y && (key y == k)) xs ≡ false
  unfolding any
  present p k [] h = refl
  present p k (y ∷ xs) h = ground (arith, present p k xs)

  -- The row with this key decides what holds of a row with it.
  pub any-key :
      (p : A → Bool) (xs : List A) (a : A)
      → IsRow a xs
      → distinct (λ x y. key x == key y) xs ≡ true
      → any (λ x. p x && (key x == key a)) xs ≡ p a
  unfolding any distinct
  any-key p [] a r d = absurd r
  any-key p (x ∷ xs) a (inl e) d =
      let none_later = distinct_first (λ x y. key x == key y) x xs d in
      subst (λ (y : A). any (λ z. p z && (key z == key y)) (x ∷ xs) ≡ p y) (sym e)
        (rw
          (==_refl (key x), present p (key x) xs (absent x (key x) xs (==_refl (key x)) none_later))
          (ground arith))
  any-key p (x ∷ xs) a (inr r) d =
      let none_later = distinct_first (λ x y. key x == key y) x xs d in
      rw
        (
          row_of_none (λ y. key x == key y) xs a r none_later,
          any-key p xs a r (distinct_rest (λ x y. key x == key y) x xs d),
        )
        (ground arith)

  -- An update of the row with this key adds to the sum over the rows that meet a test it does not see.
  pub total-update :
      (p : A → Bool) (g : A → A) (v : A → ℤ) (amount : ℤ) (k : ℕ) (xs : List A)
      → ((x : A) → p (g x) ≡ p x)
      → ((x : A) → v (g x) ≡ v x +ℤ amount)
      → distinct (λ x y. key x == key y) xs ≡ true
      → total (λ x. if p x then v x else pos 0) (update (λ x. key x == k) g xs)
        ≡ total (λ x. if p x then v x else pos 0) xs
          +ℤ (if any (λ x. p x && (key x == k)) xs then amount else pos 0)
  unfolding total update any distinct
  total-update p g v amount k [] hp hv d = grind int_laws
  total-update p g v amount k (x ∷ xs) hp hv d =
      let none_later = distinct_first (λ x y. key x == key y) x xs d in
      elim (Bool-cases (key x == k)) [
        | inl e ↦
            let gone = absent x k xs e none_later in
            rw (e, update_none (λ y. key y == k) g xs gone, present p k xs gone, hp x)
              (elim (Bool-cases (p x)) [
                | inl q ↦ rw (q, hv x) (grind int_laws)
                | inr q ↦ rw q (grind int_laws)
              ])
        | inr e ↦
            rw
              (
                e,
                total-update p g v amount k xs hp hv (distinct_rest (λ x y. key x == key y) x xs d),
              )
              (grind int_laws)
      ]

  -- An update of one row changes its part of the sum.
  pub total-update_row :
      (f : A → ℤ) (g : A → A) (xs : List A) (a : A)
      → IsRow a xs
      → distinct (λ x y. key x == key y) xs ≡ true
      → total f (update (λ x. key x == key a) g xs) +ℤ f a ≡ total f xs +ℤ f (g a)
  unfolding total update
  total-update_row f g [] a r d = absurd r
  total-update_row f g (x ∷ xs) a (inl e) d =
      let gone =
        absent x (key x) xs (==_refl (key x)) (distinct_first (λ x y. key x == key y) x xs d) in
      subst
        (λ (y : A).
          total f (update (λ z. key z == key y) g (x ∷ xs)) +ℤ f y ≡ total f (x ∷ xs) +ℤ f (g y))
        (sym e) (rw (==_refl (key x), update_none (λ y. key y == key x) g xs gone) (grind int_laws))
  total-update_row f g (x ∷ xs) a (inr r) d =
      let none_later = distinct_first (λ x y. key x == key y) x xs d in
      let rest = total-update_row f g xs a r (distinct_rest (λ x y. key x == key y) x xs d) in
      rw (row_of_none (λ y. key x == key y) xs a r none_later) (grind (int_laws, rest))
