-- ===== src/Router/Engine/Reserve.antt =====
-- What one `reserve` statement (server/internal/router/router.go) takes: an eligible row that no
-- eligible row stands before, and only its counters and times change.
use mathlib.Core.Bool.{false≢true}
use wsms_gateway.Base.{
  ℕ, ◌≡◌, refl, sym, ◌∙◌, ◌⊎◌, inl, inr, Bool, true, false, Option, none, some, List, [], ◌∷◌,
  arith, any, In, any-In, Bool-cases, Option-cases,
}
use wsms_gateway.Models.Enums.{Operator}
use wsms_gateway.Models.Records.{Sim, Db}
use wsms_gateway.Router.Engine.{
  World, Ordering, Choice, RouteError, Result, eligible, before, best, choice_of, charge_sim, taken,
  reserve,
}

module _ {A : Type 0} (lt : A → A → Bool) (p : A → Bool) where
  pub best_none : (xs : List A) → best lt p xs ≡ none → any p xs ≡ false
  best_none [] h = refl
  best_none (x ∷ xs) h = ground (arith, best_none xs)

  -- The row that is taken is the first one, or the one taken of the others.
  best-cons :
      (x : A) (xs : List A) (s : A)
      → best lt p (x ∷ xs) ≡ some s
      → ((s ≡ x) × (p x ≡ true)) ⊎ (best lt p xs ≡ some s)
  best-cons x xs s h = ground arith

  pub best_sound : (xs : List A) (s : A) → best lt p xs ≡ some s → In s xs × (p s ≡ true)
  best_sound [] s h = ground arith
  best_sound (x ∷ xs) s h = elim (best-cons x xs s h) [
    | inl (e, t) ↦ (inl e, rw e t)
    | inr later ↦ let (i, t) = best_sound xs s later in (inr i, t)
  ]

  -- With an order that never fails to compare, nothing stands before the row that is taken.
  module _ (asym : (x y : A) → lt x y ≡ true → lt y x ≡ false)
      (weak : (x y z : A) → lt x y ≡ false → lt y z ≡ false → lt x z ≡ false) where
    pub best_least :
        (xs : List A) (s y : A) → best lt p xs ≡ some s → In y xs → p y ≡ true → lt y s ≡ false
    best_least [] s y h i t = absurd i
    best_least (x ∷ xs) s y h (inl e) t = elim (Option-cases (best lt p xs)) [
      | inl nothing ↦ ground (arith, asym x x)
      | inr (z, found) ↦ ground (arith, asym x x, asym z x)
    ]
    best_least (x ∷ xs) s y h (inr i) t = elim (Option-cases (best lt p xs)) [
      | inl nothing ↦ absurd (false≢true (sym (best_none xs nothing) ∙ any-In p y xs i t))
      | inr (z, found) ↦ ground (arith, best_least xs z y found i t, weak y z x)
    ]

before_asym :
    (w : World) (o : Ordering) (a b : Sim) → before w o a b ≡ true → before w o b a ≡ false
unfolding before
before_asym w Ordering.least_loaded a b h = ground arith
before_asym w Ordering.random a b h = ground arith

before_weak :
    (w : World) (o : Ordering) (a b c : Sim)
    → before w o a b ≡ false
    → before w o b c ≡ false
    → before w o a c ≡ false
unfolding before
before_weak w Ordering.least_loaded a b c h k = ground arith
before_weak w Ordering.random a b c h k = ground arith

-- A statement that returned a row: which one, and what it changed.
pub record Taken (w : World) (ops : List Operator) (seg : ℕ) (o : Ordering) (db : Db) (c : Choice)
    (after : Db) : Type 0 where
  pub sim : Sim
  pub row : In sim db.sims
  pub fits : eligible w db.devices ops seg sim ≡ true
  pub least :
      (s : Sim) → In s db.sims → eligible w db.devices ops seg s ≡ true → before w o s sim ≡ false
  pub chosen : c ≡ choice_of sim
  pub charged : after ≡ charge_sim w seg db sim.id

-- What a statement may return.
abbrev pub Reserves : World → List Operator → ℕ → Ordering → Db → Result Choice × Db → Type 0
Reserves w ops seg o db (Result.ok c, after) = Taken w ops seg o db c after
Reserves w ops seg o db (Result.err RouteError.no_capacity, after) =
    (after ≡ db) × (any (eligible w db.devices ops seg) db.sims ≡ false)
Reserves w ops seg o db (Result.err RouteError.db_error, after) = after ≡ db

taken-Reserves :
    (w : World) (ops : List Operator) (seg : ℕ) (o : Ordering) (db : Db) (found : Option Sim)
    → best (before w o) (eligible w db.devices ops seg) db.sims ≡ found
    → Reserves w ops seg o db (taken w seg db found)
taken-Reserves w ops seg o db none e = (refl, best_none (before w o) _ db.sims e)
taken-Reserves w ops seg o db (some s) e =
    let (row, fits) = best_sound (before w o) (eligible w db.devices ops seg) db.sims s e in
    record {
      sim = s;
      row = row;
      fits = fits;
      least = λ y i t. best_least _ _ (before_asym w o) (before_weak w o) db.sims s y e i t;
      chosen = refl;
      charged = refl;
    }

-- A `reserve` that returns a SIM took an eligible row with no eligible row before it in the order,
-- and changed only that row; "no capacity" means that no row is eligible; after an error the
-- tables are as they were.
pub reserve-Reserves :
    (w : World) (statement : ℕ) (ops : List Operator) (seg : ℕ) (o : Ordering) (db : Db)
    → Reserves w ops seg o db (reserve w statement ops seg o db)
unfolding reserve
reserve-Reserves w statement ops seg o db = elim (Bool-cases (w.answers statement)) [
  | inl up ↦ rw up (taken-Reserves w ops seg o db _ refl)
  | inr down ↦ rw down refl
]
