-- ===== src/Base/Groups.antt =====
-- GROUP BY with count(*), over the values that a column can have, and a map that is filled from its
-- rows.
use Prim.Native.Nat.{ℕ, ◌+◌}
use mathlib.Core.Path.{◌≡◌, refl, ◌∙◌, ap}
use mathlib.Core.Bool.{Bool, true, false, ◌&&◌, ◌||◌}
use mathlib.Core.List.{List, [], ◌∷◌}
use mathlib.Core.Logic.{inl, inr}
use native.Mathlib.Omega.{arith}
use wsms_gateway.Base.Tests.{if◌then◌else◌, ◌==◌, Bool-cases}
use wsms_gateway.Base.Queries.{count}

module _ {K : Type 0} where
  -- The groups that are not empty, where `n k` rows have the key `k`.
  unfoldable pub groups : (K → ℕ) → List K → List (K × ℕ)
  groups n [] = []
  groups n (k ∷ ks) = let rest = groups n ks in if n k == 0 then rest else (k, n k) ∷ rest

  unfoldable pub total : List (K × ℕ) → ℕ
  total [] = 0
  total (r ∷ rs) = r.1 + total rs

  -- The sum over the keys.
  unfoldable pub sum_keys : (K → ℕ) → List K → ℕ
  sum_keys f [] = 0
  sum_keys f (k ∷ ks) = f k + sum_keys f ks

  pub total-groups : (n : K → ℕ) (ks : List K) → total (groups n ks) ≡ sum_keys n ks
  unfolding groups total sum_keys
  total-groups n [] = refl
  total-groups n (k ∷ ks) = elim (Bool-cases (n k == 0)) [
    | inl z ↦ rw z (ground (arith, total-groups n ks))
    | inr z ↦ rw z (ground (arith, total-groups n ks))
  ]

  module _ (same : K → K → Bool) where
    -- The value of a key in a map that the rows are put into, zero where it is not there.
    unfoldable pub lookup : K → List (K × ℕ) → ℕ
    lookup k [] = 0
    lookup k (r ∷ rs) = let rest = lookup k rs in if same r.0 k then r.1 else rest

    unfoldable pub member : K → List K → Bool
    member k [] = false
    member k (j ∷ js) = same j k || member k js

    pub lookup-groups :
        ((a b : K) → same a b ≡ true → a ≡ b)
        → (n : K → ℕ) (k : K) (ks : List K)
        → lookup k (groups n ks) ≡ (if member k ks then n k else 0)
    unfolding groups lookup member
    lookup-groups sound n k [] = refl
    lookup-groups sound n k (j ∷ js) = elim (Bool-cases (same j k)) [
      | inl here ↦
          let e = ap n (sound j k here) in
          elim (Bool-cases (n j == 0)) [
            | inl z ↦ rw (z, here) (lookup-groups sound n k js ∙ ground (arith, e))
            | inr z ↦ rw (z, here) e
          ]
      | inr there ↦ elim (Bool-cases (n j == 0)) [
        | inl z ↦ rw (z, there) (lookup-groups sound n k js)
        | inr z ↦ rw (z, there) (lookup-groups sound n k js)
      ]
    ]

    -- How often a key stands among the keys.
    abbrev pub times : List K → K → ℕ
    times ks k = sum_keys (λ j. if same k j then 1 else 0) ks

    module _ {A : Type 0} (p : A → Bool) (key : A → K) where
      abbrev pub counted : List A → K → ℕ
      counted xs k = count (λ x. p x && same (key x) k) xs

      counted-cons :
          (x : A) (xs : List A) (ks : List K)
          → sum_keys (counted (x ∷ xs)) ks
            ≡ (if p x then times ks (key x) else 0) + sum_keys (counted xs) ks
      unfolding count sum_keys
      counted-cons x xs [] = ground arith
      counted-cons x xs (k ∷ ks) = ground (arith, counted-cons x xs ks)

      -- Where each key stands once, the groups of the rows that meet the condition hold them all.
      pub sum_keys-counted :
          (ks : List K)
          → ((k : K) → times ks k ≡ 1)
          → (xs : List A) → sum_keys (counted xs) ks ≡ count p xs
      unfolding count sum_keys
      sum_keys-counted ks once [] = empty ks
        where
          empty : (ks : List K) → sum_keys (counted []) ks ≡ 0
          empty [] = refl
          empty (k ∷ ks) = ground (arith, empty ks)
      sum_keys-counted ks once (x ∷ xs) =
          counted-cons x xs ks ∙ ground (arith, once (key x), sum_keys-counted ks once xs)
