-- ===== src/Admin/Overview.antt =====
-- server/internal/admin/handlers.go: the figures of overview, without the daily series (calendar days
-- of a time zone). The order of the rows of a GROUP BY without ORDER BY is the database's.
pub mod Figures
use wsms_gateway.Base.{
  ℕ, zero, suc, ◌+◌, ◌-◌, Bool, true, false, not, ◌&&◌, ◌||◌, Option, none, some, List, [], ◌∷◌,
  ltb, ◌==◌, any, order_by, count, sum_of, if◌then◌else◌,
}
use wsms_gateway.Base.Groups.{groups, total, lookup}
use wsms_gateway.Models.Enums.{
  Operator, DeviceStatus, SimStatus, MessageStatus, operator_eq, is_disabled, is_ready, is_absent,
}
use wsms_gateway.Models.Records.{Device, Sim, Message, Db}
use wsms_gateway.Ws.Hub.{Hub, online_count}
use wsms_gateway.Api.Listing.{operators, is_on_net_ready}

abbrev pub status_index : MessageStatus → ℕ
status_index MessageStatus.queued = 0
status_index MessageStatus.routing = 1
status_index MessageStatus.dispatched = 2
status_index MessageStatus.awaiting_ack = 3
status_index MessageStatus.sent = 4
status_index MessageStatus.sent_unconfirmed = 5
status_index MessageStatus.delivered = 6
status_index MessageStatus.failed = 7
status_index MessageStatus.expired = 8
status_index MessageStatus.cancelled = 9

abbrev pub status_eq : MessageStatus → MessageStatus → Bool
status_eq a b = status_index a == status_index b

-- `order`: the statuses as the page lists them.
abbrev pub funnel : List MessageStatus
funnel =
    MessageStatus.delivered ∷ MessageStatus.sent ∷ MessageStatus.sent_unconfirmed
    ∷ MessageStatus.awaiting_ack ∷ MessageStatus.dispatched ∷ MessageStatus.routing
    ∷ MessageStatus.queued ∷ MessageStatus.failed ∷ MessageStatus.expired ∷ MessageStatus.cancelled
    ∷ []

-- `created_at > since`, where `since` is a day ago; the epoch is more than a day ago.
abbrev pub is_recent : ℕ → Message → Bool
is_recent now m = ltb (now - 86400000) m.created_at

abbrev pub assigned_on : (Operator → Operator → Bool) → Message → Bool
assigned_on test m = elim m.assigned_operator [ none ↦ false | some op ↦ test op m.target_operator ]

abbrev pub other_operator : Operator → Operator → Bool
other_operator a b = not (operator_eq a b)

abbrev pub larger : Operator × ℕ → Operator × ℕ → Bool
larger a b = ltb b.1 a.1

-- The rows of the three GROUP BY queries.
abbrev pub status_rows : ℕ → Db → List (MessageStatus × ℕ)
status_rows now db =
    groups (λ st. count (λ m. is_recent now m && status_eq m.status st) db.messages) funnel

abbrev pub operator_rows : ℕ → Db → List (Operator × ℕ)
operator_rows now db = order_by larger (
    groups (λ op. count (λ m. is_recent now m && operator_eq m.target_operator op) db.messages)
      operators)

abbrev pub op_ready_rows : Db → List (Operator × ℕ)
op_ready_rows db =
    groups (λ op. count (λ s. is_on_net_ready db.devices s && operator_eq s.operator op) db.sims)
      operators

-- `statusBars`: the statuses in their order that have messages.
bars : List (MessageStatus × ℕ) → List MessageStatus → List (MessageStatus × ℕ)
bars rows [] = []
bars rows (st ∷ sts) =
    let n = lookup status_eq st rows in
    let rest = bars rows sts in if ltb 0 n then (st, n) ∷ rest else rest

-- The largest count, and at least 1.
largest : ℕ → List (Operator × ℕ) → ℕ
largest mx [] = mx
largest mx (r ∷ rs) = largest (if ltb mx r.1 then r.1 else mx) rs

is_offline : DeviceStatus → Bool
is_offline DeviceStatus.offline = true
is_offline _ = false

abbrev pub live_sim : (Sim → Bool) → Sim → Bool
live_sim p s = p s && not s.deleted

needs_attention : Device → Bool
unfolding is_offline
needs_attention d =
    not (is_disabled d.status) && ((is_offline d.status || ltb 0 d.wake_misses) && not d.deleted)

pub record Overview : Type 0 where
  pub online_devices : ℕ
  pub total_devices : ℕ
  pub ready_sims : ℕ
  pub total_sims : ℕ
  pub queue_depth : ℕ
  pub delivered : ℕ
  pub failed : ℕ
  pub total24 : ℕ
  pub success_num : ℕ
  pub success_den : ℕ
  pub on_net : ℕ
  pub fallback : ℕ
  pub seg_today : ℕ
  pub quota_sent : ℕ
  pub quota_total : ℕ
  pub status_bars : List (MessageStatus × ℕ)
  pub operators : List (Operator × ℕ)
  pub op_max : ℕ
  pub op_ready : List (Operator × ℕ)
  pub op_ready_max : ℕ
  pub attention : ℕ

unfoldable pub overview : ℕ → Hub → Db → Overview
unfolding bars largest needs_attention
overview now hub db =
    let rows = status_rows now db in
    let of = λ (st : MessageStatus). lookup status_eq st rows in
    let delivered = of MessageStatus.delivered in
    let failed = of MessageStatus.failed + of MessageStatus.expired in
    record {
      online_devices = online_count hub;
      total_devices = count (λ (d : Device). not d.deleted) db.devices;
      ready_sims = count (live_sim (λ s. is_ready s.status)) db.sims;
      total_sims = count (live_sim (λ s. true)) db.sims;
      queue_depth =
          of MessageStatus.queued
          + of MessageStatus.routing
          + of MessageStatus.dispatched
          + of MessageStatus.awaiting_ack;
      delivered = delivered;
      failed = failed;
      total24 = total rows;
      success_num = delivered;
      success_den = delivered + failed;
      on_net = count (λ m. assigned_on operator_eq m && is_recent now m) db.messages;
      fallback = count (λ m. assigned_on other_operator m && is_recent now m) db.messages;
      seg_today = sum_of (live_sim (λ s. true)) (λ s. s.sent_today) db.sims;
      quota_sent = sum_of (live_sim (λ s. not (is_absent s.status))) (λ s. s.sent_today) db.sims;
      quota_total = sum_of (live_sim (λ s. not (is_absent s.status))) (λ s. s.daily_quota) db.sims;
      status_bars = bars rows funnel;
      operators = operator_rows now db;
      op_max = largest 1 (operator_rows now db);
      op_ready = op_ready_rows db;
      op_ready_max = largest 1 (op_ready_rows db);
      attention = count needs_attention db.devices;
    }
