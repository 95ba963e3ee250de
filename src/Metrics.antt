-- ===== src/Metrics.antt =====
-- server/internal/metrics/metrics.go: the gauges that Collect computes.
pub mod Depth
use wsms_gateway.Base.{
  ℕ, ◌-◌, Bool, true, false, not, ◌&&◌, Option, List, [], ◌∷◌, ltb, ◌==◌, count, if◌then◌else◌,
}
use wsms_gateway.Base.Groups.{groups}
use wsms_gateway.Models.Enums.{Operator, MessageStatus, is_ready}
use wsms_gateway.Models.Records.{Text, Sim, Message, DeliveryStatus, WebhookDelivery, Db}
use wsms_gateway.Models.Names.{status_text, operator_text}
use wsms_gateway.Text.{codes, take}
use wsms_gateway.Ws.Hub.{Hub, online_count}
use wsms_gateway.Admin.Overview.{status_eq, funnel}

-- A gauge with the values of its labels.
pub data Metric : Type 0 where
  devices_online sims_ready sims_total : ℕ → Metric
  queue_depth messages_24h : (status : Text) → ℕ → Metric
  sim_sent_today : (sim operator : Text) → ℕ → Metric
  webhook_deliveries : (status : Text) → ℕ → Metric

delivery_index : DeliveryStatus → ℕ
delivery_index DeliveryStatus.pending = 0
delivery_index DeliveryStatus.sent = 1
delivery_index DeliveryStatus.failed = 2

delivery_eq : DeliveryStatus → DeliveryStatus → Bool
unfolding delivery_index
delivery_eq a b = delivery_index a == delivery_index b

delivery_text : DeliveryStatus → Text
delivery_text DeliveryStatus.pending = codes "pending"
delivery_text DeliveryStatus.sent = codes "sent"
delivery_text DeliveryStatus.failed = codes "failed"

-- The statuses of the queue.
abbrev pub is_waiting : MessageStatus → Bool
is_waiting MessageStatus.queued = true
is_waiting MessageStatus.routing = true
is_waiting MessageStatus.dispatched = true
is_waiting MessageStatus.awaiting_ack = true
is_waiting _ = false

-- The three GROUP BY queries; the order of their rows is the database's.
abbrev pub depth_rows : Db → List (MessageStatus × ℕ)
depth_rows db =
    groups (λ st. count (λ (m : Message). is_waiting m.status && status_eq m.status st) db.messages)
      funnel

abbrev pub day_rows : ℕ → Db → List (MessageStatus × ℕ)
day_rows now db =
    groups
      (λ st.
        count (λ (m : Message). ltb (now - 86400000) m.created_at && status_eq m.status st)
          db.messages)
      funnel

delivery_rows : Db → List (DeliveryStatus × ℕ)
unfolding delivery_eq
delivery_rows db =
    groups (λ st. count (λ (w : WebhookDelivery). delivery_eq w.status st) db.deliveries)
      (DeliveryStatus.pending ∷ DeliveryStatus.sent ∷ DeliveryStatus.failed ∷ [])

-- One gauge for each row, before `later`.
each_row : {A : Type 0} → (A → Metric) → List A → List Metric → List Metric
each_row f [] later = later
each_row f (a ∷ rest) later = f a ∷ each_row f rest later

live_sims : List Sim → List Sim
live_sims [] = []
live_sims (s ∷ sims) = let rest = live_sims sims in if s.deleted then rest else s ∷ rest

-- `Collect`, with the gauges in the order in which they are sent; `id_text` prints a UUID.
unfoldable pub collect : (ℕ → Text) → ℕ → Hub → Db → List Metric
unfolding delivery_rows delivery_text each_row live_sims
collect id_text now hub db =
    Metric.devices_online (online_count hub)
    ∷ Metric.sims_ready (count (λ (s : Sim). is_ready s.status && not s.deleted) db.sims)
    ∷ Metric.sims_total (count (λ (s : Sim). not s.deleted) db.sims)
    ∷ each_row (λ r. Metric.queue_depth (status_text r.0) r.1) (depth_rows db)
        (each_row (λ r. Metric.messages_24h (status_text r.0) r.1) (day_rows now db)
          (each_row
            (λ (s : Sim).
              Metric.sim_sent_today (take 8 (id_text s.id)) (operator_text s.operator) s.sent_today)
            (live_sims db.sims)
            (each_row (λ r. Metric.webhook_deliveries (delivery_text r.0) r.1) (delivery_rows db)
              [])))
