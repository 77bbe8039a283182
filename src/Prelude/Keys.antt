-- ===== src/Prelude/Keys.antt =====
-- Rows with a primary key, and what an update by key does to a row.
use mathlib.Core.Path.{◌≡◌, refl, sym, ap, ◌∙◌}
use mathlib.Core.Bool.{Bool, true, false}
use mathlib.Core.List.{List, [], ◌∷◌}
use mathlib.Core.Logic.{inl, inr}
use Prim.Native.Nat.{ℕ}
use Prim.Native.String.{String}
use text.Mathlib.Text.{◌==◌ as str_eq}
use text.Mathlib.TextEquality.{eq_iff}
use native.Mathlib.Omega.{arith}
use payment_gateway_system.Prelude.Tests.{◌==◌, Bool-cases, if◌then◌else◌}
use payment_gateway_system.Prelude.Laws.{distinct_first, distinct_rest, select_unique}
use payment_gateway_system.Prelude.Rows.{IsRow, select, update, any, distinct}

module _ {A : Type 0} where
  pub row_of_none :
      (q : A → Bool) (xs : List A) (a : A) → IsRow a xs → any q xs ≡ false → q a ≡ false
  unfolding any
  row_of_none q [] a r h = absurd r
  row_of_none q (x ∷ xs) a (inl e) h = rw e (ground arith)
  row_of_none q (x ∷ xs) a (inr r) h = row_of_none q xs a r (ground arith)

  -- A row that meets a test.
  pub any_row : (q : A → Bool) (xs : List A) (a : A) → IsRow a xs → q a ≡ true → any q xs ≡ true
  any_row q xs a r h = elim (Bool-cases (any q xs)) [
    | inl e ↦ e
    | inr n ↦ cc (row_of_none q xs a r n, h)
  ]

  pub update_none : (q : A → Bool) (g : A → A) (xs : List A) → any q xs ≡ false → update q g xs ≡ xs
  unfolding any update
  update_none q g [] h = refl
  update_none q g (x ∷ xs) h = elim (Bool-cases (q x)) [
    | inl e ↦ cc (rw e at h)
    | inr e ↦ rw (e, update_none q g xs (rw e at h)) refl
  ]

  -- A row of an updated table comes from one of the table before.
  pub IsRow-update :
      (q : A → Bool) (f : A → A) (xs : List A) (y : A)
      → IsRow y (update q f xs)
      → (x : A) × (IsRow x xs × (y ≡ (if q x then f x else x)))
  unfolding update
  IsRow-update q f [] y r = absurd r
  IsRow-update q f (x ∷ xs) y (inl e) = (x, (inl refl, e))
  IsRow-update q f (x ∷ xs) y (inr r) = let (z, (s, e)) = IsRow-update q f xs y r in (z, (inr s, e))

own : {m n : ℕ} → m ≡ n → ¬ ((m == n) ≡ false)
own p h = ground arith

module _ {A : Type 0} (key : A → ℕ) where
  key_differs :
      (x a : A) (xs : List A)
      → IsRow x xs
      → any (λ y. key a == key y) xs ≡ false
      → (key x == key a) ≡ false
  key_differs x a xs r n = flip (key a) (key x) (row_of_none (λ y. key a == key y) xs x r n)
    where
      flip : (m n : ℕ) → (m == n) ≡ false → (n == m) ≡ false
      flip m n h = ground arith

  -- A key belongs to one row.
  pub unique_row :
      (xs : List A) (a x : A)
      → distinct (λ x y. key x == key y) xs ≡ true
      → IsRow a xs
      → IsRow x xs
      → (key x == key a) ≡ true
      → x ≡ a
  unique_row [] a x d r s e = absurd r
  unique_row (y ∷ xs) a x d (inl p) (inl q) e = q ∙ sym p
  unique_row (y ∷ xs) a x d (inl p) (inr s) e =
      absurd
        (differ e (rw p (key_differs x y xs s (distinct_first (λ x y. key x == key y) y xs d))))
    where
      differ : {b : Bool} → b ≡ true → ¬ (b ≡ false)
      differ t f = cc
  unique_row (y ∷ xs) a x d (inr r) (inl q) e = absurd (
      differ (key x) (key a) e
        (rw q (key_differs a y xs r (distinct_first (λ x y. key x == key y) y xs d))))
    where
      differ : (m n : ℕ) → (m == n) ≡ true → ¬ ((n == m) ≡ false)
      differ m n t f = ground arith
  unique_row (y ∷ xs) a x d (inr r) (inr s) e =
      unique_row xs a x (distinct_rest (λ x y. key x == key y) y xs d) r s e

  -- A query that no row meets.
  pub no_rows :
      (p : A → Bool) (xs : List A) → ((y : A) → IsRow y xs → p y ≡ false) → select p xs ≡ []
  unfolding select
  no_rows p [] h = refl
  no_rows p (x ∷ xs) h = rw (h x (inl refl), no_rows p xs (λ y r. h y (inr r))) refl

  -- A query that one row meets, and every other row that meets it is that row.
  pub sole_row :
      (p : A → Bool) (xs : List A) (x : A)
      → IsRow x xs
      → p x ≡ true
      → ((y : A) → IsRow y xs → p y ≡ true → y ≡ x)
      → distinct (λ x y. key x == key y) xs ≡ true
      → select p xs ≡ x ∷ []
  unfolding select
  sole_row p [] x r h s d = absurd r
  sole_row p (y ∷ xs) x (inl e) h s d = rw (rw e at h, no_rows p xs others, e) refl
    where
      others : (z : A) → IsRow z xs → p z ≡ false
      others z r = elim (Bool-cases (p z)) [
        | inl t ↦ absurd (
            own (ap key (s z (inr r) t ∙ e))
              (key_differs z y xs r (distinct_first (λ x y. key x == key y) y xs d)))
        | inr f ↦ f
      ]
  sole_row p (y ∷ xs) x (inr r) h s d = elim (Bool-cases (p y)) [
    | inl t ↦ absurd (
        own (ap key (sym (s y (inl refl) t)))
          (key_differs x y xs r (distinct_first (λ x y. key x == key y) y xs d)))
    | inr f ↦
        rw f
          (sole_row p xs x r h (λ z q. s z (inr q)) (distinct_rest (λ x y. key x == key y) y xs d))
  ]

-- A unique text belongs to one row.
pub row_of_text :
    {A : Type 0} (key : A → String) (xs : List A) (a b : A)
    → distinct (λ x y. str_eq (key x) (key y)) xs ≡ true
    → IsRow a xs
    → IsRow b xs
    → key a ≡ key b
    → a ≡ b
row_of_text {A} key xs a b d r s e = cc (found a r e, found b s refl)
  where
    alike :
        (x y : A)
        → str_eq (key x) (key b) ≡ true
        → str_eq (key y) (key b) ≡ true
        → str_eq (key x) (key y) ≡ true
    alike x y h k =
        ground (arith, eq_iff (key x) (key b), eq_iff (key y) (key b), eq_iff (key x) (key y))

    found : (x : A) → IsRow x xs → key x ≡ key b → select (λ y. str_eq (key y) (key b)) xs ≡ x ∷ []
    found x q p =
        select_unique (λ y. str_eq (key y) (key b)) (λ x y. str_eq (key x) (key y)) alike xs x q d
          ((eq_iff (key x) (key b)).1 p)
