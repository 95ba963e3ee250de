-- ===== src/Dispatch/Inbound.antt =====
-- server/internal/dispatch/dispatcher.go: the frames that devices send.
pub mod Preserves
pub mod Late
pub mod Follows
pub mod Other
use wsms_gateway.Base.{
  ℕ, ◌++◌, ◌&&◌, not, Option, none, some, [], ◌∷◌, ◌==◌, leb, update_where, if◌then◌else◌,
}
use wsms_gateway.Models.Enums.{MessageStatus, EventType}
use wsms_gateway.Models.Records.{Text, is_empty, Message, Detail, Actor, AuditAction, Db}
use wsms_gateway.Text.{text}
use wsms_gateway.Ws.Protocol.{
  AckResult, SendAckData, ReportStatus, DeliveryReportData, CancelResult, CancelAckData,
  SetQuotaData, Inbound, Frame,
}
use wsms_gateway.Ws.Hub.{send_to}
use wsms_gateway.Fleet.{upsert_sims, device_sim_states, set_sim_quota}
use wsms_gateway.Dispatch.State.{
  State, Env, now_of, find_message, event, terminate, advance_if_pinned, release_assigned,
  delete_send,
}

-- Attempts are used up: the message fails instead of waiting again.
abbrev pub next_of : Message → MessageStatus
next_of m = if leb m.max_attempts m.attempts then MessageStatus.failed else MessageStatus.queued

abbrev pub error_of : Message → Text → Text
error_of m reason =
    if leb m.max_attempts m.attempts
    then text "max attempts exhausted after reject: " ++ reason
    else reason

pub unassigned : ℕ → MessageStatus → Text → Message → Message
unassigned now next error m = record m {
  status = next;
  assigned_sim_id = none;
  assigned_device_id = none;
  last_error = error;
  updated_at = now;
}

-- What `rejectAndRequeue` does to the message that it found.
pub requeue : ℕ → Text → Message → Db → Db
unfolding unassigned
requeue now reason msg db =
    let freed = delete_send msg.id (release_assigned now msg.assigned_sim_id msg.segments db) in
    event now msg.id EventType.ack_rejected (Detail.reject reason (next_of msg)) (record freed {
      messages =
          update_where (λ m. m.id == msg.id) (unassigned now (next_of msg) (error_of msg reason))
            freed.messages;
    })

unfoldable pub reject_and_requeue : ℕ → ℕ → Text → Db → Db
unfolding requeue
reject_and_requeue now id reason db = elim (find_message id db) [
  | none ↦ db
  | some msg ↦ requeue now reason msg db
]

ack_result : ℕ → AckResult → ℕ → Text → Db → Db
ack_result now AckResult.accepted id reason db =
    advance_if_pinned now id MessageStatus.dispatched EventType.ack_accepted reason db
ack_result now AckResult.duplicate id reason db =
    advance_if_pinned now id MessageStatus.dispatched EventType.ack_duplicate reason db
ack_result now AckResult.rejected id reason db = reject_and_requeue now id reason db
ack_result now AckResult.other id reason db = db

unfoldable pub on_send_ack : ℕ → SendAckData → Db → Db
unfolding ack_result
on_send_ack now a db = ack_result now a.result a.message_id a.reason db

-- Release the reserve of a message that was found.
abbrev release_found : ℕ → Option Message → Db → Db
release_found now none db = db
release_found now (some m) db = release_assigned now m.assigned_sim_id m.segments db

report_status : ℕ → ReportStatus → ℕ → Text → Db → Db
report_status now ReportStatus.sent id reason db =
    advance_if_pinned now id MessageStatus.sent EventType.sent reason db
report_status now ReportStatus.delivered id reason db =
    advance_if_pinned now id MessageStatus.delivered EventType.delivered reason db
report_status now ReportStatus.send_failed id reason db = reject_and_requeue now id reason db
report_status now ReportStatus.failed id reason db =
    let msg = find_message id db in
    terminate now msg MessageStatus.failed EventType.failed reason (release_found now msg db)
report_status now ReportStatus.other id reason db = db

unfoldable pub on_delivery_report : ℕ → DeliveryReportData → Db → Db
unfolding report_status
on_delivery_report now dr db = report_status now dr.status dr.message_id dr.reason db

cancel_result : ℕ → CancelResult → ℕ → Db → Db
cancel_result now CancelResult.cancelled id db =
    let msg = find_message id db in
    terminate now msg MessageStatus.cancelled EventType.cancelled (text "cancelled before send")
      (release_found now msg db)
cancel_result now _ id db = db

unfoldable pub on_cancel_ack : ℕ → CancelAckData → Db → Db
unfolding cancel_result
on_cancel_ack now ca db = cancel_result now ca.result ca.message_id db

unfoldable pub push_sim_state : Env → ℕ → State → State
push_sim_state e device st = record st {
  hub = (send_to e.pick device (Frame.sim_state (device_sim_states st.db device)) st.hub).0;
}

audit_quota : ℕ → ℕ → Option (ℕ × ℕ) → Db → Db
audit_quota now device none db = db
audit_quota now device (some (sim, clamped)) db = record db {
  audits =
      db.audits
      ++ record {
        actor = Actor.device device;
        action = AuditAction.sim_quota clamped;
        target_id = sim;
        created_at = now;
      }
        ∷ [];
}

-- `set_quota` of a device, by frame or by REST.
unfoldable pub apply_quota : ℕ → ℕ → SetQuotaData → Db → Db
unfolding audit_quota
apply_quota now device sq db =
    let (db', done) = set_sim_quota now device sq.subscription_id sq.daily_quota db in
    audit_quota now device done db'

-- `Update` sets `updated_at` too.
unfoldable pub set_push_token : ℕ → ℕ → Text → Db → Db
set_push_token now device token db = record db {
  devices =
      update_where (λ d. d.id == device && not d.deleted)
        (λ d. record d { push_token = token; updated_at = now }) db.devices;
}

-- `HandleFrame`.
unfoldable pub handle_frame : Env → ℕ → Inbound → State → State
unfolding push_sim_state
handle_frame e device (Inbound.send_ack a) st = record st { db = on_send_ack (now_of e) a st.db }
handle_frame e device (Inbound.delivery_report dr) st = record st {
  db = on_delivery_report (now_of e) dr st.db;
}
handle_frame e device (Inbound.cancel_ack ca) st = record st {
  db = on_cancel_ack (now_of e) ca st.db;
}
handle_frame e device (Inbound.sim_report sims) st =
    push_sim_state e device (record st { db = (upsert_sims (now_of e) e.ids device sims st.db).0 })
handle_frame e device (Inbound.set_quota sq) st =
    push_sim_state e device (record st { db = apply_quota (now_of e) device sq st.db })
handle_frame e device (Inbound.hello h) st =
    if is_empty h.push_token
    then st
    else record st { db = set_push_token (now_of e) device h.push_token st.db }
handle_frame e device Inbound.heartbeat st = st
handle_frame e device Inbound.other st = st
