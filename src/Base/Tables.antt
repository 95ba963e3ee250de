-- ===== src/Base/Tables.antt =====
-- Tables as lists of rows in primary-key order, with the statements that the server runs on them,
-- and the laws of these statements.
use Prim.Native.Nat.{ℕ, suc}
use mathlib.Core.Path.{◌≡◌, refl, sym, ◌∙◌, ap, subst}
use mathlib.Core.Bool.{Bool, true, false, ◌&&◌, ◌||◌, false≢true}
use mathlib.Core.Option
use mathlib.Core.Option.{Option, none, some}
use mathlib.Core.Logic.{◌⊎◌, inl, inr}
use mathlib.Core.List.{List, [], ◌∷◌, ◌++◌}
use native.Mathlib.Omega.{arith}
use wsms_gateway.Base.Tests.{◌==◌, ==_refl, if◌then◌else◌, is_some, Bool-cases}

module _ {ℓ} {A : Type ℓ} where
  abbrev pub length : List A → ℕ
  length [] = 0
  length (x ∷ xs) = suc (length xs)

  -- `First` with a condition.
  abbrev pub first : (A → Bool) → List A → Option A
  first p [] = none
  first p (x ∷ xs) = if p x then some x else first p xs

  -- `RowsAffected > 0`, or a `SELECT` that finds a row.
  abbrev pub any : (A → Bool) → List A → Bool
  any p [] = false
  any p (x ∷ xs) = p x || any p xs

  -- `UPDATE … SET f WHERE p`.
  abbrev pub update_where : (A → Bool) → (A → A) → List A → List A
  update_where p f [] = []
  update_where p f (x ∷ xs) = (if p x then f x else x) ∷ update_where p f xs

  -- `SELECT … WHERE p`.
  abbrev pub select : (A → Bool) → List A → List A
  select p [] = []
  select p (x ∷ xs) = let rest = select p xs in if p x then x ∷ rest else rest

  -- `DELETE … WHERE p`.
  abbrev pub delete_where : (A → Bool) → List A → List A
  delete_where p [] = []
  delete_where p (x ∷ xs) = let rest = delete_where p xs in if p x then rest else x ∷ rest

  pub update_where_none :
      (p : A → Bool) (f : A → A) (xs : List A) → any p xs ≡ false → update_where p f xs ≡ xs
  update_where_none p f [] h = refl
  update_where_none p f (x ∷ xs) h = ground (arith, update_where_none p f xs)

  pub length-update_where :
      (p : A → Bool) (f : A → A) (xs : List A) → length (update_where p f xs) ≡ length xs
  length-update_where p f [] = refl
  length-update_where p f (x ∷ xs) = ap suc (length-update_where p f xs)

  pub any-append : (p : A → Bool) (xs ys : List A) → any p (xs ++ ys) ≡ (any p xs || any p ys)
  any-append p [] ys = refl
  any-append p (x ∷ xs) ys = ground (arith, any-append p xs ys)

  pub first-append_none :
      (p : A → Bool) (xs ys : List A) → first p xs ≡ none → first p (xs ++ ys) ≡ first p ys
  first-append_none p [] ys h = refl
  first-append_none p (x ∷ xs) ys h = ground (arith, first-append_none p xs ys)

  pub first-append_some :
      (p : A → Bool) (xs ys : List A) {a : A} → first p xs ≡ some a → first p (xs ++ ys) ≡ some a
  first-append_some p [] ys h = ground arith
  first-append_some p (x ∷ xs) ys {a} h = ground (arith, first-append_some p xs ys {a = a})

  -- An update that a query does not see.
  pub first-update_where :
      (p q : A → Bool) (f : A → A) (xs : List A)
      → ((x : A) → p (f x) ≡ p x)
      → first p (update_where q f xs) ≡ Option.map (λ x. if q x then f x else x) (first p xs)
  first-update_where p q f [] h = refl
  first-update_where p q f (x ∷ xs) h = ground (arith, h x, first-update_where p q f xs h)

  -- What a query returns meets its condition.
  pub first_sound : (p : A → Bool) (xs : List A) {a : A} → first p xs ≡ some a → p a ≡ true
  first_sound p [] h = ground arith
  first_sound p (x ∷ xs) {a} h = elim (Bool-cases (p x)) [
    | inl here ↦ ground arith
    | inr there ↦ first_sound p xs (ground arith)
  ]

  pub any-is_some-first : (p : A → Bool) (xs : List A) → any p xs ≡ is_some (first p xs)
  any-is_some-first p [] = refl
  any-is_some-first p (x ∷ xs) = ground (arith, any-is_some-first p xs)

  -- What is deleted is not found, and a row that is found and stays is found.
  pub first-delete_where : (p : A → Bool) (xs : List A) → first p (delete_where p xs) ≡ none
  first-delete_where p [] = refl
  first-delete_where p (x ∷ xs) = ground (arith, first-delete_where p xs)

  pub first-delete_where_kept :
      (p q : A → Bool) (xs : List A) {a : A}
      → first p xs ≡ some a
      → q a ≡ false
      → first p (delete_where q xs) ≡ some a
  first-delete_where_kept p q [] h k = ground arith
  first-delete_where_kept p q (x ∷ xs) {a} h k =
      ground (arith, first-delete_where_kept p q xs {a = a})

  abbrev pub All {κ} : (A → Type κ) → List A → Type κ
  All P [] = Unit
  All P (x ∷ xs) = P x × All P xs

module _ {ℓ} {A : Type ℓ} (key : A → ℕ) where
  abbrev pub by_key : ℕ → List A → Option A
  by_key k = first (λ x. key x == k)

  -- A primary key: no two rows share it.
  abbrev pub IsKeyed : List A → Type 0
  IsKeyed [] = Unit
  IsKeyed (x ∷ xs) = (any (λ y. key y == key x) xs ≡ false) × IsKeyed xs

  pub by_key-update_where :
      (p : A → Bool) (f : A → A) (k : ℕ) (xs : List A)
      → ((x : A) → key (f x) ≡ key x)
      → by_key k (update_where p f xs) ≡ Option.map (λ x. if p x then f x else x) (by_key k xs)
  by_key-update_where p f k [] h = refl
  by_key-update_where p f k (x ∷ xs) h = ground (arith, h x, by_key-update_where p f k xs h)

  any_key-update_where :
      (p : A → Bool) (f : A → A) (k : ℕ) (xs : List A)
      → ((x : A) → key (f x) ≡ key x)
      → any (λ y. key y == k) (update_where p f xs) ≡ any (λ y. key y == k) xs
  any_key-update_where p f k [] h = refl
  any_key-update_where p f k (x ∷ xs) h = ground (arith, h x, any_key-update_where p f k xs h)

  pub update_where-IsKeyed :
      (p : A → Bool) (f : A → A) (xs : List A)
      → ((x : A) → key (f x) ≡ key x)
      → IsKeyed xs
      → IsKeyed (update_where p f xs)
  update_where-IsKeyed p f [] h u = tt
  update_where-IsKeyed p f (x ∷ xs) h u =
      ground (arith, h x, update_where-IsKeyed p f xs h, any_key-update_where p f (key x) xs h)

  none_by_key :
      (k : ℕ) (q : A → Bool) (xs : List A)
      → any (λ y. key y == k) xs ≡ false
      → any (λ y. key y == k && q y) xs ≡ false
  none_by_key k q [] h = refl
  none_by_key k q (x ∷ xs) h = ground (arith, none_by_key k q xs)

  -- A statement for one id with a further condition affects a row when the row meets it.
  pub any-by_key :
      (k : ℕ) (q : A → Bool) (xs : List A) {a : A}
      → IsKeyed xs
      → by_key k xs ≡ some a
      → any (λ y. key y == k && q y) xs ≡ q a
  any-by_key k q [] u h = ground arith
  any-by_key k q (x ∷ xs) {a} u h = elim (Bool-cases (key x == k)) [
    | inl here ↦
        let same : key x ≡ k = ground arith in
        let alone = subst (λ j. any (λ y. key y == j) xs ≡ false) same u.0 in
        ground (arith, none_by_key k q xs alone)
    | inr there ↦ ground (arith, any-by_key k q xs {a = a} u.1 (ground arith))
  ]

-- A row of a table.
abbrev pub In : {A : Type 0} → A → List A → Type 0
In a [] = ⊥
In a (x ∷ xs) = (a ≡ x) ⊎ In a xs

module _ {A : Type 0} where
  -- What a query returns is a row.
  pub first-In : (p : A → Bool) (a : A) (xs : List A) → first p xs ≡ some a → In a xs
  first-In p a [] h = absurd (cc h)
  first-In p a (x ∷ xs) h = elim (Bool-cases (p x)) [
    | inl t ↦ inl (cc (rw t at h))
    | inr f ↦ inr (first-In p a xs (rw f at h))
  ]

  pub any-In : (p : A → Bool) (a : A) (xs : List A) → In a xs → p a ≡ true → any p xs ≡ true
  any-In p a [] h t = absurd h
  any-In p a (x ∷ xs) (inl e) t = rw (← e, t)
  any-In p a (x ∷ xs) (inr h) t = ground (arith, any-In p a xs h t)

  -- The query by primary key finds each row.
  pub by_key-In :
      (key : A → ℕ) (a : A) (xs : List A)
      → IsKeyed key xs
      → In a xs
      → by_key key (key a) xs ≡ some a
  by_key-In key a [] u h = absurd h
  by_key-In key a (x ∷ xs) u (inl e) = rw (← e, ==_refl (key a))
  by_key-In key a (x ∷ xs) u (inr h) =
      let twice = any-In (λ y. key y == key x) a xs h in
      ground (arith, twice, by_key-In key a xs u.1 h)

  pub In-any : (p : A → Bool) (xs : List A) → any p xs ≡ true → (a : A) × In a xs × (p a ≡ true)
  In-any p [] h = absurd (false≢true h)
  In-any p (x ∷ xs) h = elim (Bool-cases (p x)) [
    | inl here ↦ (x, inl refl, here)
    | inr there ↦ let (a, i, t) = In-any p xs (ground arith) in (a, inr i, t)
  ]

module _ {A : Type 0} where
  -- Where a row of an updated table comes from.
  pub In-update_where :
      (p : A → Bool) (f : A → A) (b : A) (xs : List A)
      → In b (update_where p f xs)
      → (a : A) × In a xs × (b ≡ (if p a then f a else a))
  In-update_where p f b [] i = absurd i
  In-update_where p f b (x ∷ xs) (inl e) = (x, inl refl, e)
  In-update_where p f b (x ∷ xs) (inr i) =
      let (a, j, e) = In-update_where p f b xs i in (a, inr j, e)

  -- Rows of one primary key are one row.
  pub In-same_key :
      (key : A → ℕ) (a b : A) (xs : List A)
      → IsKeyed key xs
      → In a xs
      → In b xs
      → key a ≡ key b
      → a ≡ b
  In-same_key key a b xs u i j e =
      cc (sym (by_key-In key a xs u i) ∙ (ap (λ k. by_key key k xs) e ∙ by_key-In key b xs u j))
