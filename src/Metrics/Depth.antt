-- ===== src/Metrics/Depth.antt =====
-- The gauge of the queue (server/internal/metrics/metrics.go).
use wsms_gateway.Base.{
  ℕ, ◌+◌, ◌≡◌, refl, ap, ◌∙◌, Bool, true, false, not, List, [], ◌∷◌, arith, count,
}
use wsms_gateway.Base.Groups.{total, total-groups, sum_keys-counted}
use wsms_gateway.Models.Enums.{MessageStatus, is_terminal}
use wsms_gateway.Models.Records.{Text, Sim, Message, Db}
use wsms_gateway.Models.Names.{status_text, operator_text}
use wsms_gateway.Text.{take}
use wsms_gateway.Ws.Hub.{Hub}
use wsms_gateway.Admin.Overview.{status_eq, funnel}
use wsms_gateway.Admin.Overview.Figures.{funnel_once}
use wsms_gateway.Metrics.{
  Metric, is_waiting, depth_rows, day_rows, delivery_rows, delivery_text, live_sims, each_row,
  collect,
}

-- The sum of the gauges wsms_queue_depth.
abbrev pub depth_of : Metric → ℕ
depth_of (Metric.queue_depth status n) = n
depth_of _ = 0

abbrev pub sum_depth : List Metric → ℕ
sum_depth [] = 0
sum_depth (m ∷ ms) = depth_of m + sum_depth ms

sum_rows :
    (f : MessageStatus × ℕ → Metric) (rows : List (MessageStatus × ℕ)) (later : List Metric)
    → ((r : MessageStatus × ℕ) → depth_of (f r) ≡ r.1)
    → sum_depth (each_row f rows later) ≡ total rows + sum_depth later
unfolding each_row total
sum_rows f [] later h = omega arith
sum_rows f (r ∷ rows) later h = ground (arith, h r, sum_rows f rows later h)

no_rows :
    {A : Type 0} (f : A → Metric) (rows : List A) (later : List Metric)
    → ((r : A) → depth_of (f r) ≡ 0)
    → sum_depth (each_row f rows later) ≡ sum_depth later
unfolding each_row
no_rows f [] later h = refl
no_rows f (r ∷ rows) later h = ground (arith, h r, no_rows f rows later h)

abbrev pub is_sent : MessageStatus → Bool
is_sent MessageStatus.sent = true
is_sent _ = false

open_split :
    (ms : List Message)
    → count (λ (m : Message). is_waiting m.status) ms + count (λ (m : Message). is_sent m.status) ms
      ≡ count (λ (m : Message). not (is_terminal m.status)) ms
unfolding count
open_split [] = refl
open_split (m ∷ ms) = ground (arith, open_split ms)

-- The gauges of the queue add up to the messages that are in no terminal state less those that are
-- SENT, which Collect leaves out.
pub collect-depth :
    (id_text : ℕ → Text) (now : ℕ) (hub : Hub) (db : Db)
    → sum_depth (collect id_text now hub db) + count (λ (m : Message). is_sent m.status) db.messages
      ≡ count (λ (m : Message). not (is_terminal m.status)) db.messages
unfolding collect
collect-depth id_text now hub db =
    let rows =
      total-groups _ funnel
      ∙ sum_keys-counted status_eq (λ (m : Message). is_waiting m.status) (λ m. m.status) funnel
          funnel_once db.messages in
    let hooks =
      each_row (λ r. Metric.webhook_deliveries (delivery_text r.0) r.1) (delivery_rows db) [] in
    let sims =
      each_row
        (λ (s : Sim).
          Metric.sim_sent_today (take 8 (id_text s.id)) (operator_text s.operator) s.sent_today)
        (live_sims db.sims) hooks in
    let days = each_row (λ r. Metric.messages_24h (status_text r.0) r.1) (day_rows now db) sims in
    ap (λ n. n + count (λ (m : Message). is_sent m.status) db.messages)
      (omega (
        arith,
        rows,
        sum_rows (λ r. Metric.queue_depth (status_text r.0) r.1) (depth_rows db) days (λ r. refl),
        no_rows (λ r. Metric.messages_24h (status_text r.0) r.1) (day_rows now db) sims (λ r. refl),
        no_rows
            (λ (s : Sim).
              Metric.sim_sent_today (take 8 (id_text s.id)) (operator_text s.operator) s.sent_today)
            (live_sims db.sims) hooks (λ r. refl),
        no_rows (λ r. Metric.webhook_deliveries (delivery_text r.0) r.1) (delivery_rows db) []
            (λ r. refl),
      ))
    ∙ open_split db.messages
