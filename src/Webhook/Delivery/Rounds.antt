-- ===== src/Webhook/Delivery/Rounds.antt =====
-- What a round over deliveries (server/internal/webhook/webhook.go) does to the store.
use wsms_gateway.Base.{
  ℕ, suc, ◌+◌, ◌≤◌, ◌≡◌, refl, Bool, false, some, List, [], ◌∷◌, ◌++◌, arith, ◌==◌, length, All, In,
  update_where, Option-cases, inl, inr,
}
use wsms_gateway.Models.Records.{Message, WebhookDelivery, Db}
use wsms_gateway.Dispatch.State.{find_message}
use wsms_gateway.Webhook.Delivery.{
  Net, Callback, Answer, callback_of, sign, settle, post, deliver_one, deliver_each,
}

update_where-In :
    (p : WebhookDelivery → Bool) (f : WebhookDelivery → WebhookDelivery) (w : WebhookDelivery)
    (xs : List WebhookDelivery)
    → In w xs
    → p w ≡ false
    → In w (update_where p f xs)
update_where-In p f w [] i n = absurd i
update_where-In p f w (x ∷ xs) (inl e) n = inl (rw (← e, n) refl)
update_where-In p f w (x ∷ xs) (inr i) n = inr (update_where-In p f w xs i n)

-- The tables that a delivery reads, beside any rows of deliveries.
abbrev with_rows : Db → List WebhookDelivery → Db
with_rows db ds = record db { deliveries = ds }

-- The request of a delivery for its message.
pub record Made (net : Net) (wd : WebhookDelivery) (db : Db) (c : Callback) : Type 0 where
  pub message : Message
  pub found : find_message wd.message_id db ≡ some message
  pub same : c ≡ callback_of net wd message db

-- What one delivery does.
record One (net : Net) (wd : WebhookDelivery) (db : Db) (ds : List WebhookDelivery)
    (r : Db × List Callback) : Type 0 where
  rows : List WebhookDelivery
  tables : r.0 ≡ with_rows db rows
  kept : (w : WebhookDelivery) → In w ds → (w.id == wd.id) ≡ false → In w rows
  made : All (Made net wd db) r.1
  single : length r.1 ≤ 1

settle-rows :
    (net : Net) (wd : WebhookDelivery) (a : Answer) (db : Db) (ds : List WebhookDelivery)
    → (f : WebhookDelivery → WebhookDelivery) × (settle net wd a (with_rows db ds)
        ≡ with_rows db (update_where (λ w. w.id == wd.id) f ds))
unfolding settle
settle-rows net wd (Answer.code n) db ds = (_, refl)
settle-rows net wd (Answer.error reason) db ds = (_, refl)

deliver_one-One :
    (net : Net) (wd : WebhookDelivery) (db : Db) (ds : List WebhookDelivery)
    → One net wd db ds (deliver_one net wd (with_rows db ds))
unfolding deliver_one post callback_of sign
deliver_one-One net wd db ds = elim (Option-cases (find_message wd.message_id db)) [
  | inl missing ↦
      rw (missing, deliver_one)
        (record { rows = ds; tables = refl; kept = λ w i n. i; made = tt; single = ground arith })
  | inr (m, found) ↦ elim (Option-cases (net.bad_url wd.url)) [
    | inr (reason, bad) ↦
        let (f, e) = settle-rows net wd (Answer.error reason) db ds in
        rw (found, deliver_one, bad, post)
          (record {
            rows = update_where (λ w. w.id == wd.id) f ds;
            tables = e;
            kept = λ w i n. update_where-In (λ w. w.id == wd.id) f w ds i n;
            made = tt;
            single = ground arith;
          })
    | inl good ↦
        let c = callback_of net wd m db in
        let (f, e) = settle-rows net wd (net.answers c) db ds in
        rw (found, deliver_one, good, post)
          (record {
            rows = update_where (λ w. w.id == wd.id) f ds;
            tables = e;
            kept = λ w i n. update_where-In (λ w. w.id == wd.id) f w ds i n;
            made = (record { message = m; found = found; same = refl }, tt);
            single = ground arith;
          })
  ]
]

-- A request of one of these deliveries, of which the k-th met `nets k`.
pub record From (nets : ℕ → Net) (wds : List WebhookDelivery) (db : Db) (c : Callback)
    : Type 0 where
  pub turn : ℕ
  pub delivery : WebhookDelivery
  pub row : In delivery wds
  pub made : Made (nets turn) delivery db c

-- What a round over deliveries does.
pub record Round (nets : ℕ → Net) (wds : List WebhookDelivery) (db : Db) (ds : List WebhookDelivery)
    (r : Db × List Callback) : Type 0 where
  pub rows : List WebhookDelivery
  pub tables : r.0 ≡ with_rows db rows
  pub kept :
      (w : WebhookDelivery)
      → In w ds
      → ((v : WebhookDelivery) → In v wds → (w.id == v.id) ≡ false)
      → In w rows
  pub made : All (From nets wds db) r.1
  pub single : length r.1 ≤ length wds

All-first :
    (nets : ℕ → Net) (wd : WebhookDelivery) (wds : List WebhookDelivery) (db : Db)
    (cs : List Callback)
    → All (Made (nets 0) wd db) cs
    → All (From nets (wd ∷ wds) db) cs
All-first nets wd wds db [] h = tt
All-first nets wd wds db (c ∷ cs) (h, hs) =
    (record { turn = 0; delivery = wd; row = inl refl; made = h }, All-first nets wd wds db cs hs)

All-later :
    (nets : ℕ → Net) (wd : WebhookDelivery) (wds : List WebhookDelivery) (db : Db)
    (cs : List Callback)
    → All (From (λ n. nets (suc n)) wds db) cs
    → All (From nets (wd ∷ wds) db) cs
All-later nets wd wds db [] h = tt
All-later nets wd wds db (c ∷ cs) (h, hs) = (
  record { turn = suc h.turn; delivery = h.delivery; row = inr h.row; made = h.made },
  All-later nets wd wds db cs hs,
)

All-append :
    (P : Callback → Type 0) (xs ys : List Callback) → All P xs → All P ys → All P (xs ++ ys)
All-append P [] ys h k = k
All-append P (x ∷ xs) ys (h, hs) k = (h, All-append P xs ys hs k)

length-append : (xs ys : List Callback) → length (xs ++ ys) ≡ length xs + length ys
length-append [] ys = omega arith
length-append (x ∷ xs) ys = ground (arith, length-append xs ys)

pub deliver_each-Round :
    (nets : ℕ → Net) (wds : List WebhookDelivery) (db : Db) (ds : List WebhookDelivery)
    → Round nets wds db ds (deliver_each nets wds (with_rows db ds))
unfolding deliver_each
deliver_each-Round nets [] db ds = record {
  rows = ds;
  tables = refl;
  kept = λ w i n. i;
  made = tt;
  single = ground arith;
}
deliver_each-Round nets (wd ∷ wds) db ds =
    let one = deliver_one-One (nets 0) wd db ds in
    let later = deliver_each-Round (λ n. nets (suc n)) wds db one.rows in
    let head = (deliver_one (nets 0) wd (with_rows db ds)).1 in
    let tail = (deliver_each (λ n. nets (suc n)) wds (with_rows db one.rows)).1 in
    rw one.tables (record {
      rows = later.rows;
      tables = later.tables;
      kept = λ w i n. later.kept w (one.kept w i (n wd (inl refl))) (λ v j. n v (inr j));
      made =
          All-append (From nets (wd ∷ wds) db) head tail (All-first nets wd wds db head one.made)
            (All-later nets wd wds db tail later.made);
      single = omega (arith, length-append head tail, one.single, later.single);
    })
