-- ===== src/Base/Queries.antt =====
-- The clauses of a SELECT: ORDER BY, LIMIT, count(*) and GROUP BY, over tables as lists of rows.
use Prim.Native.Nat.{ℕ, zero, suc, ◌+◌, ◌≤◌}
use mathlib.Core.Path.{◌≡◌, sym, subst}
use mathlib.Core.Bool.{Bool, true}
use mathlib.Core.List.{List, [], ◌∷◌}
use native.Mathlib.Omega.{arith}
use wsms_gateway.Base.Tests.{if◌then◌else◌, Bool-cases}
use wsms_gateway.Base.Tables.{All, length, select}
use mathlib.Core.Logic.{inl, inr}

-- `ORDER BY`, with the order as the test that a row stands before another; rows that it leaves equal
-- stand in the order of the table.
module _ {ℓ} {A : Type ℓ} (before : A → A → Bool) where
  unfoldable pub insert_row : A → List A → List A
  insert_row x [] = x ∷ []
  insert_row x (y ∷ ys) =
      let later = y ∷ insert_row x ys in if before y x then later else x ∷ y ∷ ys

  unfoldable pub order_by : List A → List A
  unfolding insert_row
  order_by [] = []
  order_by (x ∷ xs) = insert_row x (order_by xs)

-- `LIMIT n`.
unfoldable pub limit {ℓ} : {A : Type ℓ} → ℕ → List A → List A
limit zero xs = []
limit (suc n) [] = []
limit (suc n) (x ∷ xs) = x ∷ limit n xs

module _ {ℓ} {A : Type ℓ} where
  -- `SELECT count(*) … WHERE p`.
  unfoldable pub count : (A → Bool) → List A → ℕ
  count p [] = 0
  count p (x ∷ xs) = if p x then suc (count p xs) else count p xs

  -- `SELECT COALESCE(sum(f), 0) … WHERE p`.
  unfoldable pub sum_of : (A → Bool) → (A → ℕ) → List A → ℕ
  sum_of p f [] = 0
  sum_of p f (x ∷ xs) = (if p x then f x else 0) + sum_of p f xs

  pub All-select_test : (p : A → Bool) (xs : List A) → All (λ x. p x ≡ true) (select p xs)
  All-select_test p [] = tt
  All-select_test p (x ∷ xs) = elim (Bool-cases (p x)) [
    | inl t ↦
        subst (λ b. All (λ y. p y ≡ true) (if b then x ∷ select p xs else select p xs)) (sym t)
          (t, All-select_test p xs)
    | inr f ↦
        subst (λ b. All (λ y. p y ≡ true) (if b then x ∷ select p xs else select p xs)) (sym f)
          (All-select_test p xs)
  ]

  module _ {κ} (P : A → Type κ) where
    pub All-insert_row :
        (before : A → A → Bool) (x : A) (xs : List A)
        → P x
        → All P xs
        → All P (insert_row before x xs)
    unfolding insert_row
    All-insert_row before x [] h hs = (h, tt)
    All-insert_row before x (y ∷ ys) h (hy, hs) = elim (Bool-cases (before y x)) [
      | inl t ↦ rw t (hy, All-insert_row before x ys h hs)
      | inr f ↦ rw f (h, (hy, hs))
    ]

    pub All-order_by : (before : A → A → Bool) (xs : List A) → All P xs → All P (order_by before xs)
    unfolding order_by
    All-order_by before [] h = tt
    All-order_by before (x ∷ xs) (h, hs) =
        All-insert_row before x (order_by before xs) h (All-order_by before xs hs)

    pub All-limit : (n : ℕ) (xs : List A) → All P xs → All P (limit n xs)
    unfolding limit
    All-limit zero xs h = tt
    All-limit (suc n) [] h = tt
    All-limit (suc n) (x ∷ xs) (h, hs) = (h, All-limit n xs hs)

pub length-limit {ℓ} : {A : Type ℓ} (n : ℕ) (xs : List A) → length (limit n xs) ≤ n
unfolding limit
length-limit zero xs = omega arith
length-limit (suc n) [] = omega arith
length-limit (suc n) (x ∷ xs) = omega (arith, length-limit n xs)
