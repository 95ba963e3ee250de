-- ===== src/Admin/Overview/Figures.antt =====
-- What the figures of overview (server/internal/admin/handlers.go) add up to.
use wsms_gateway.Base.{
  ℕ, ◌+◌, ◌≤◌, ◌≡◌, refl, sym, ap, ◌∙◌, Bool, true, ◌&&◌, List, [], ◌∷◌, arith, ltb, order_by,
  insert_row, count, sum_of, In, Bool-cases, inl, inr,
}
use wsms_gateway.Base.Groups.{
  total, sum_keys, lookup, member, times, total-groups, lookup-groups, sum_keys-counted,
}
use wsms_gateway.Models.Enums.{Operator, MessageStatus, operator_eq}
use wsms_gateway.Models.Records.{Sim, Message, Db}
use wsms_gateway.Ws.Hub.{Hub}
use wsms_gateway.Router.Engine.Quota.{WithinQuota}
use wsms_gateway.Api.Listing.{operators}
use wsms_gateway.Admin.Overview.{
  status_eq, funnel, is_recent, assigned_on, other_operator, larger, status_rows, bars, Overview,
  overview,
}

status_eq_sound : (a b : MessageStatus) → status_eq a b ≡ true → a ≡ b
status_eq_sound a b h = ground arith

pub funnel_once : (st : MessageStatus) → times status_eq funnel st ≡ 1
unfolding sum_keys
funnel_once st = ground arith

funnel-member : (st : MessageStatus) → member status_eq st funnel ≡ true
unfolding member
funnel-member st = ground arith

operators_once : (op : Operator) → times operator_eq operators op ≡ 1
unfolding sum_keys
operators_once op = ground arith

-- How many recent messages have a status.
abbrev pub recent_with : ℕ → Db → MessageStatus → ℕ
recent_with now db st = count (λ m. is_recent now m && status_eq m.status st) db.messages

lookup_status :
    (now : ℕ) (db : Db) (st : MessageStatus)
    → lookup status_eq st (status_rows now db) ≡ recent_with now db st
lookup_status now db st =
    lookup-groups status_eq status_eq_sound (recent_with now db) st funnel
    ∙ rw (funnel-member st) refl

total-bars :
    (rows : List (MessageStatus × ℕ)) (sts : List MessageStatus)
    → total (bars rows sts) ≡ sum_keys (λ st. lookup status_eq st rows) sts
unfolding bars total sum_keys
total-bars rows [] = refl
total-bars rows (st ∷ sts) = elim (Bool-cases (ltb 0 (lookup status_eq st rows))) [
  | inl t ↦ rw t (ground (arith, total-bars rows sts))
  | inr f ↦ rw f (ground (arith, total-bars rows sts))
]

sum_keys-cong :
    (f g : MessageStatus → ℕ) (sts : List MessageStatus)
    → ((st : MessageStatus) → f st ≡ g st)
    → sum_keys f sts ≡ sum_keys g sts
unfolding sum_keys
sum_keys-cong f g [] h = refl
sum_keys-cong f g (st ∷ sts) h = ground (arith, h st, sum_keys-cong f g sts h)

sum_funnel :
    (f : MessageStatus → ℕ)
    → sum_keys f funnel
      ≡ f MessageStatus.delivered
        + f MessageStatus.sent
        + f MessageStatus.sent_unconfirmed
        + f MessageStatus.awaiting_ack
        + f MessageStatus.dispatched
        + f MessageStatus.routing
        + f MessageStatus.queued
        + f MessageStatus.failed
        + f MessageStatus.expired
        + f MessageStatus.cancelled
unfolding sum_keys
sum_funnel f = omega arith

total-insert_row :
    (r : Operator × ℕ) (rs : List (Operator × ℕ)) → total (insert_row larger r rs) ≡ r.1 + total rs
unfolding insert_row total
total-insert_row r [] = refl
total-insert_row r (x ∷ xs) = elim (Bool-cases (larger x r)) [
  | inl t ↦ rw t (ground (arith, total-insert_row r xs))
  | inr f ↦ rw f refl
]

total-order_by : (rs : List (Operator × ℕ)) → total (order_by larger rs) ≡ total rs
unfolding order_by total
total-order_by [] = refl
total-order_by (r ∷ rs) =
    total-insert_row r (order_by larger rs) ∙ ap (λ t. r.1 + t) (total-order_by rs)

abbrev is_assigned : ℕ → Message → Bool
is_assigned now m = assigned_on (λ a b. true) m && is_recent now m

assigned_split :
    (now : ℕ) (ms : List Message)
    → count (λ m. assigned_on operator_eq m && is_recent now m) ms
        + count (λ m. assigned_on other_operator m && is_recent now m) ms
      ≡ count (is_assigned now) ms
unfolding count
assigned_split now [] = refl
assigned_split now (m ∷ ms) = ground (arith, assigned_split now ms)

sum_of-le :
    (p : Sim → Bool) (f g : Sim → ℕ) (xs : List Sim)
    → ((s : Sim) → In s xs → f s ≤ g s)
    → sum_of p f xs ≤ sum_of p g xs
unfolding sum_of
sum_of-le p f g [] h = omega arith
sum_of-le p f g (s ∷ ss) h = ground (arith, h s (inl refl), sum_of-le p f g ss (λ x i. h x (inr i)))

-- What the figures promise.
pub record Adds (now : ℕ) (db : Db) (o : Overview) : Type 0 where
  pub recent : o.total24 ≡ count (is_recent now) db.messages
  pub shown : total o.status_bars ≡ o.total24
  pub shares :
      o.delivered
        + o.failed
        + o.queue_depth
        + recent_with now db MessageStatus.sent
        + recent_with now db MessageStatus.sent_unconfirmed
        + recent_with now db MessageStatus.cancelled
      ≡ o.total24
  pub targets : total o.operators ≡ o.total24
  pub traffic : o.on_net + o.fallback ≡ count (is_assigned now) db.messages
  pub quota : WithinQuota db → o.quota_sent ≤ o.quota_total

-- The figures of the overview agree with each other and with the messages of the last day: the total
-- is their number; the bars of the statuses and the rows of the operators add up to the total; so do
-- the delivered, failed and waiting messages with those that are SENT, SENT_UNCONFIRMED or CANCELLED;
-- the on-net and fallback messages are those that have a SIM; and where no SIM has sent more than its
-- quota, neither has the fleet.
pub overview-Adds : (now : ℕ) (hub : Hub) (db : Db) → Adds now db (overview now hub db)
unfolding overview
overview-Adds now hub db =
    let at = lookup_status now db in
    let rows = total-groups (recent_with now db) funnel in
    let every =
      sum_keys-counted status_eq (is_recent now) (λ (m : Message). m.status) funnel funnel_once
        db.messages in
    let targets =
      sum_keys-counted operator_eq (is_recent now) (λ (m : Message). m.target_operator) operators
        operators_once db.messages in
    record {
      recent = rows ∙ every;
      shown =
          total-bars (status_rows now db) funnel
          ∙ sum_keys-cong _ (recent_with now db) funnel (lookup_status now db)
          ∙ sym rows;
      shares = omega (
        arith,
        rows,
        sum_funnel (recent_with now db),
        at MessageStatus.delivered,
        at MessageStatus.failed,
        at MessageStatus.expired,
        at MessageStatus.queued,
        at MessageStatus.routing,
        at MessageStatus.dispatched,
        at MessageStatus.awaiting_ack,
      );
      targets = total-order_by _ ∙ total-groups _ operators ∙ targets ∙ sym (rows ∙ every);
      traffic = assigned_split now db.messages;
      quota = λ h. sum_of-le _ (λ s. s.sent_today) (λ s. s.daily_quota) db.sims h;
    }
