-- ===== src/Store/Prefixes.antt =====
-- The table of prefixes after a start (server/internal/store/store.go).
use mathlib.Core.Option
use wsms_gateway.Base.{
  ◌≡◌, refl, sym, ap, ◌∙◌, Bool, true, false, Option, none, some, List, [], ◌∷◌, ◌++◌, any,
  Bool-cases, inl, inr, arith, if◌then◌else◌,
}
use wsms_gateway.Models.Enums.{Operator}
use wsms_gateway.Models.Records.{Text, OperatorPrefix, Db}
use wsms_gateway.Text.{text_eq}
use wsms_gateway.Text.Laws.{text_eq_sound}
use wsms_gateway.Router.Msisdn.{lookup, default_prefixes}
use wsms_gateway.Store.{seed_one, seed_all, seed_prefixes, as_table, load_prefixes}

-- The first table, where it has the entry.
abbrev pub first_of : Option Operator → Option Operator → Option Operator
first_of none b = b
first_of (some op) b = some op

first_of_assoc : (a b c : Option Operator) → first_of (first_of a b) c ≡ first_of a (first_of b c)
first_of_assoc none b c = refl
first_of_assoc (some op) b c = refl

abbrev only : Text → Operator → Text → Option Operator
only p op k = if text_eq p k then some op else none

lookup-cons :
    (p k : Text) (op : Operator) (table : List (Text × Operator))
    → lookup k ((p, op) ∷ table) ≡ first_of (only p op k) (lookup k table)
lookup-cons p k op table = elim (Bool-cases (text_eq p k)) [ inl t ↦ rw t refl | inr f ↦ rw f refl ]

lookup-add :
    (p k : Text) (op : Operator) (rows : List OperatorPrefix)
    → lookup k (as_table (rows ++ record { prefix = p; operator = op } ∷ []))
      ≡ first_of (lookup k (as_table rows)) (only p op k)
unfolding as_table
lookup-add p k op [] = refl
lookup-add p k op (r ∷ rows) = elim (Bool-cases (text_eq r.prefix k)) [
  | inl t ↦ rw t refl
  | inr f ↦ rw f (lookup-add p k op rows)
]

lookup-known :
    (p k : Text) (op : Operator) (rows : List OperatorPrefix)
    → any (λ (r : OperatorPrefix). text_eq r.prefix p) rows ≡ true
    → first_of (lookup k (as_table rows)) (only p op k) ≡ lookup k (as_table rows)
unfolding as_table
lookup-known p k op [] h = ground arith
lookup-known p k op (r ∷ rows) h = elim (Bool-cases (text_eq r.prefix k)) [
  | inl t ↦ rw t refl
  | inr f ↦ elim (Bool-cases (text_eq r.prefix p)) [
    | inl same ↦
        let away : text_eq p k ≡ false =
          ap (λ q. text_eq q k) (sym (text_eq_sound r.prefix p same)) ∙ f in
        rw (f, away) (first_of-none (lookup k (as_table rows)))
    | inr other ↦ rw f (lookup-known p k op rows (rw other at h))
  ]
]
  where
    first_of-none : (a : Option Operator) → first_of a none ≡ a
    first_of-none none = refl
    first_of-none (some a) = refl

lookup-seed_one :
    (p k : Text) (op : Operator) (rows : List OperatorPrefix)
    → lookup k (as_table (seed_one p op rows)) ≡ first_of (lookup k (as_table rows)) (only p op k)
lookup-seed_one p k op rows =
    elim (Bool-cases (any (λ (r : OperatorPrefix). text_eq r.prefix p) rows)) [
      | inl known ↦ rw known (sym (lookup-known p k op rows known))
      | inr new ↦ rw new (lookup-add p k op rows)
    ]

lookup-seed_all :
    (fails : Text → Bool) (k : Text) (table : List (Text × Operator)) (rows : List OperatorPrefix)
    → (seed_all fails table rows).0 ≡ true
    → lookup k (as_table (seed_all fails table rows).1)
      ≡ first_of (lookup k (as_table rows)) (lookup k table)
unfolding seed_all
lookup-seed_all fails k [] rows h = whole (lookup k (as_table rows))
  where
    whole : (a : Option Operator) → a ≡ first_of a none
    whole none = refl
    whole (some a) = refl
lookup-seed_all fails k ((p, op) ∷ table) rows h = elim (Bool-cases (fails p)) [
  | inl failed ↦ absurd (false-ne-true (rw failed at h))
  | inr fine ↦ rw fine (
      lookup-seed_all fails k table (seed_one p op rows) (rw fine at h)
      ∙ (ap (λ o. first_of o (lookup k table)) (lookup-seed_one p k op rows)
          ∙ (first_of_assoc (lookup k (as_table rows)) (only p op k) (lookup k table)
              ∙ ap (first_of (lookup k (as_table rows))) (sym (lookup-cons p k op table)))))
]
  where
    false-ne-true : ◌≡◌ {A = Bool} false true → ⊥
    false-ne-true z = cc

-- After a start whose seeding returns no error, the table that is loaded has for each prefix the
-- operator that the database had before, and the default one where it had none.
pub load_prefixes-seed_prefixes :
    (fails : Text → Bool) (db : Db) (k : Text)
    → (seed_prefixes fails db).0 ≡ true
    → Option.map (lookup k) (load_prefixes true (seed_prefixes fails db).1)
      ≡ some (first_of (lookup k (as_table db.prefixes)) (lookup k default_prefixes))
unfolding seed_prefixes load_prefixes
load_prefixes-seed_prefixes fails db k h =
    ap some (lookup-seed_all fails k default_prefixes db.prefixes h)
