-- ===== src/Webhook/Delivery/Posted.antt =====
-- What deliverBatch (server/internal/webhook/webhook.go) posts, and which rows it leaves alone.
use mathlib.Core.Bool.{false≢true}
use wsms_gateway.Base.{
  ℕ, ◌≤◌, ◌≡◌, refl, sym, ◌∙◌, ap, subst, true, false, List, [], ◌∷◌, arith, ◌==◌, ==_iff, length,
  All, All-limit, All-order_by, length-limit, In, IsKeyed, In-same_key, select, Bool-cases, inl,
  inr,
}
use wsms_gateway.Models.Records.{WebhookDelivery, Db}
use wsms_gateway.Webhook.Delivery.{Net, Callback, due, sooner, batch, deliver_batch}
use wsms_gateway.Webhook.Delivery.Rounds.{Made, From, deliver_each-Round}

-- A row of a query.
In-All :
    (P : WebhookDelivery → Type 0) (w : WebhookDelivery) (xs : List WebhookDelivery)
    → In w xs
    → All P xs
    → P w
In-All P w [] i h = absurd i
In-All P w (x ∷ xs) (inl e) (h, hs) = subst P (sym e) h
In-All P w (x ∷ xs) (inr i) (h, hs) = In-All P w xs i hs

In-refl : (xs : List WebhookDelivery) → All (λ w. In w xs) xs
In-refl [] = tt
In-refl (x ∷ xs) = (inl refl, widen xs xs (In-refl xs))
  where
    widen : (ys zs : List WebhookDelivery) → All (λ w. In w ys) zs → All (λ w. In w (x ∷ ys)) zs
    widen ys [] h = tt
    widen ys (z ∷ zs) (h, hs) = (inr h, widen ys zs hs)

abbrev pub Due : ℕ → Db → WebhookDelivery → Type 0
Due now db w = In w db.deliveries × (due now w ≡ true)

select-Due :
    (now : ℕ) (db : Db) (xs : List WebhookDelivery)
    → All (λ w. In w db.deliveries) xs
    → All (Due now db) (select (due now) xs)
select-Due now db [] h = tt
select-Due now db (x ∷ xs) (h, hs) = elim (Bool-cases (due now x)) [
  | inl t ↦ rw t ((h, t), select-Due now db xs hs)
  | inr f ↦ rw f (select-Due now db xs hs)
]

batch-Due : (now : ℕ) (db : Db) → All (Due now db) (batch now db)
unfolding batch
batch-Due now db =
    All-limit (Due now db) 50 _
      (All-order_by (Due now db) sooner _ (select-Due now db db.deliveries (In-refl db.deliveries)))

-- A callback that deliverBatch posts is made from a pending delivery of the store that is due, with
-- the data of its message, to the URL of the delivery; a batch posts at most 50; and a row that is
-- sent, that failed or that is not due is left as it was. This takes that the ids of the rows differ.
pub deliver_batch-Posted :
    (now : ℕ) (nets : ℕ → Net) (db : Db)
    → IsKeyed (λ (w : WebhookDelivery). w.id) db.deliveries
    → All
        (λ c. (k : ℕ) × (w : WebhookDelivery) × Due now db w × Made (nets k) w db c)
        (deliver_batch now nets db).1
      × (length (deliver_batch now nets db).1 ≤ 50)
      × ((w : WebhookDelivery)
          → In w db.deliveries
          → due now w ≡ false
          → In w (deliver_batch now nets db).0.deliveries)
unfolding deliver_batch
deliver_batch-Posted now nets db keyed =
    let r = deliver_each-Round nets (batch now db) db db.deliveries in
    (
      each _ r.made,
      omega (arith, r.single, size),
      λ w i n.
          rw r.tables
            (r.kept w i (λ v j. other w v i n (In-All (Due now db) v _ j (batch-Due now db)))),
    )
  where
    size : length (batch now db) ≤ 50
    size = unfold batch in length-limit 50 _

    each :
        (cs : List Callback)
        → All (From nets (batch now db) db) cs
        → All (λ c. (k : ℕ) × (w : WebhookDelivery) × Due now db w × Made (nets k) w db c) cs
    each [] h = tt
    each (c ∷ cs) (h, hs) = (
      (h.turn, h.delivery, In-All (Due now db) h.delivery _ h.row (batch-Due now db), h.made),
      each cs hs,
    )

    other :
        (w v : WebhookDelivery)
        → In w db.deliveries
        → due now w ≡ false
        → Due now db v
        → (w.id == v.id) ≡ false
    other w v i n (j, t) = elim (Bool-cases (w.id == v.id)) [
      | inr f ↦ f
      | inl q ↦
          let same =
            In-same_key (λ (x : WebhookDelivery). x.id) w v db.deliveries keyed i j
              ((==_iff w.id v.id).0 q) in
          absurd (false≢true (sym n ∙ ap (due now) same ∙ t))
    ]
