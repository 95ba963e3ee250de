-- ===== src/Admin/Pages/Shown.antt =====
-- What the pages of the console (server/internal/admin/handlers.go) show of a device.
use wsms_gateway.Base.{
  ℕ, suc, ◌≡◌, refl, sym, ap, ◌∙◌, Bool, true, false, not, ◌&&◌, ◌||◌, List, [], ◌∷◌, arith, ◌==◌,
  any, select, order_by, insert_row, count, Bool-cases, inl, inr, if◌then◌else◌,
}
use wsms_gateway.Models.Enums.{Operator, operator_eq, operator_eq_iff}
use wsms_gateway.Models.Records.{Device, Sim, Db}
use wsms_gateway.Ws.Hub.{Hub}
use wsms_gateway.Admin.Pages.{distinct_ops, by_slot_of, device_view}

operator_eq_refl : (op : Operator) → operator_eq op op ≡ true
operator_eq_refl op = (operator_eq_iff op op).1 refl

not_sym : (a b : Operator) → operator_eq a b ≡ false → operator_eq b a ≡ false
not_sym a b h = ground arith

times_in :
    (seen : List Operator) (sims : List Sim) (op : Operator)
    → count (λ o. operator_eq o op) (distinct_ops seen sims) ≡ (
        if any (operator_eq op) seen
        then 0
        else if any (λ (s : Sim). operator_eq s.operator op) sims
        then 1
        else 0)
unfolding distinct_ops count
times_in seen [] op = ground arith
times_in seen (s ∷ sims) op = elim (Bool-cases (operator_eq s.operator op)) [
  | inl same ↦
      let e = (operator_eq_iff s.operator op).0 same in
      elim (Bool-cases (any (operator_eq s.operator) seen)) [
        | inl old ↦
            let old' : any (operator_eq op) seen ≡ true =
              ap (λ (o : Operator). any (operator_eq o) seen) (sym e) ∙ old in
            rw (old, old') (times_in seen sims op ∙ rw old' refl)
        | inr new ↦
            let new' : any (operator_eq op) seen ≡ false =
              ap (λ (o : Operator). any (operator_eq o) seen) (sym e) ∙ new in
            let back : operator_eq op s.operator ≡ true =
              (operator_eq_iff op s.operator).1 (sym e) in
            rw (new, new', same)
              (ap (λ (n : ℕ). suc n) (times_in (s.operator ∷ seen) sims op ∙ rw back refl))
      ]
  | inr other ↦
      let back : operator_eq op s.operator ≡ false = not_sym s.operator op other in
      elim (Bool-cases (any (operator_eq s.operator) seen)) [
        | inl old ↦ rw (old, other) (times_in seen sims op)
        | inr new ↦ rw (new, other) (times_in (s.operator ∷ seen) sims op ∙ rw back refl)
      ]
]

any-insert_row :
    (p : Sim → Bool) (x : Sim) (xs : List Sim)
    → any p (insert_row by_slot_of x xs) ≡ (p x || any p xs)
unfolding insert_row
any-insert_row p x [] = refl
any-insert_row p x (y ∷ ys) = elim (Bool-cases (by_slot_of y x)) [
  | inl t ↦ rw t (ground (arith, any-insert_row p x ys))
  | inr f ↦ rw f refl
]

any-order_by : (p : Sim → Bool) (xs : List Sim) → any p (order_by by_slot_of xs) ≡ any p xs
unfolding order_by
any-order_by p [] = refl
any-order_by p (x ∷ xs) =
    any-insert_row p x (order_by by_slot_of xs) ∙ ap (λ b. p x || b) (any-order_by p xs)

any-select : (p q : Sim → Bool) (xs : List Sim) → any p (select q xs) ≡ any (λ s. q s && p s) xs
any-select p q [] = refl
any-select p q (x ∷ xs) = elim (Bool-cases (q x)) [
  | inl t ↦ rw t (ap (λ b. p x || b) (any-select p q xs))
  | inr f ↦ rw f (any-select p q xs)
]

-- The summary of a device on the fleet page names an operator once if a SIM of the device that is not
-- deleted has that operator, and not at all otherwise, in whatever order the SIMs stand.
pub device_view-ops :
    (hub : Hub) (db : Db) (d : Device) (op : Operator)
    → count (λ o. operator_eq o op) (device_view hub db d).ops ≡ (
        if any
          (λ (s : Sim). (s.device_id == d.id && not s.deleted) && operator_eq s.operator op)
          db.sims
        then 1
        else 0)
unfolding device_view
device_view-ops hub db d op =
    let mine = select (λ (s : Sim). s.device_id == d.id && not s.deleted) db.sims in
    times_in [] (order_by by_slot_of mine) op
    ∙ ap (λ (b : Bool). if b then 1 else 0)
        (any-order_by (λ s. operator_eq s.operator op) mine
          ∙ any-select (λ s. operator_eq s.operator op) _ db.sims)
