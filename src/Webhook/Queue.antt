-- ===== src/Webhook/Queue.antt =====
-- The message that a delivery is for (server/internal/webhook/webhook.go).
use wsms_gateway.Base.{
  ℕ, suc, ◌≡◌, refl, false, List, [], ◌∷◌, ◌++◌, any, ◌==◌, arith, IsKeyed, any-append, Bool-cases,
  inl, inr, select,
}
use wsms_gateway.Models.Records.{Message, WebhookDelivery, Db}
use wsms_gateway.Webhook.{
  awaits_callback, take, new_delivery, insert_delivery, insert_each, enqueue,
}

abbrev pub delivery_message : WebhookDelivery → ℕ
delivery_message w = w.message_id

append-IsKeyed :
    (w : WebhookDelivery) (xs : List WebhookDelivery)
    → any (λ (x : WebhookDelivery). x.message_id == w.message_id) xs ≡ false
    → IsKeyed delivery_message xs
    → IsKeyed delivery_message (xs ++ w ∷ [])
append-IsKeyed w [] f u = (refl, tt)
append-IsKeyed w (x ∷ xs) f (u, us) = (
  rw (any-append (λ (y : WebhookDelivery). y.message_id == x.message_id) xs (w ∷ []))
      (ground arith),
  append-IsKeyed w xs (ground arith) us,
)

insert_delivery-IsKeyed :
    (w : WebhookDelivery) (xs : List WebhookDelivery)
    → IsKeyed delivery_message xs
    → IsKeyed delivery_message (insert_delivery w xs)
unfolding insert_delivery
insert_delivery-IsKeyed w xs u =
    elim (Bool-cases (any (λ (x : WebhookDelivery). x.message_id == w.message_id) xs)) [
      | inl t ↦ rw t u
      | inr f ↦ rw f (append-IsKeyed w xs f u)
    ]

insert_each-IsKeyed :
    (now : ℕ) (new_id : ℕ → ℕ) (max n : ℕ) (ms : List Message) (xs : List WebhookDelivery)
    → IsKeyed delivery_message xs
    → IsKeyed delivery_message (insert_each now new_id max n ms xs)
unfolding insert_each
insert_each-IsKeyed now new_id max n [] xs u = u
insert_each-IsKeyed now new_id max n (m ∷ ms) xs u =
    insert_each-IsKeyed now new_id max (suc n) ms
      (insert_delivery (new_delivery now (new_id n) max m) xs)
      (insert_delivery-IsKeyed (new_delivery now (new_id n) max m) xs u)

-- `enqueue` keeps at most one delivery for each message.
pub enqueue-IsKeyed :
    (now : ℕ) (new_id : ℕ → ℕ) (max : ℕ) (db : Db)
    → IsKeyed delivery_message db.deliveries
    → IsKeyed delivery_message (enqueue now new_id max db).deliveries
unfolding enqueue
enqueue-IsKeyed now new_id max db u =
    insert_each-IsKeyed now new_id max 0
      (take 200 (select (awaits_callback db.deliveries) db.messages)) db.deliveries u
