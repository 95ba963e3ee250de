-- ===== src/Dispatch/Inbound/Preserves.antt =====
-- The handlers of device frames (server/internal/dispatch/dispatcher.go) keep the invariant of the
-- messages, in any state and for any frame, late and repeated ones included.
use wsms_gateway.Base.{
  ℕ, refl, Option, none, some, List, arith, ◌==◌, first-In, In, In-same_key, update_where,
  delete_where, Option-cases, Bool-cases, inl, inr,
}
use wsms_gateway.Models.Records.{Text, is_empty, Message, Db}
use wsms_gateway.Router.Engine.{release}
use wsms_gateway.Ws.Protocol.{
  AckResult, SendAckData, ReportStatus, DeliveryReportData, CancelResult, CancelAckData,
  SetQuotaData, SimInfo, Inbound,
}
use wsms_gateway.Fleet.{Ids, upsert_sims, set_sim_quota}
use wsms_gateway.Dispatch.State.{State, Env, now_of, message_key, find_message, release_assigned}
use wsms_gateway.Dispatch.Inbound.{
  next_of, error_of, unassigned, requeue, reject_and_requeue, ack_result, on_send_ack,
  release_found, report_status, on_delivery_report, cancel_result, on_cancel_ack, apply_quota,
  set_push_token, handle_frame,
}
use wsms_gateway.Dispatch.Invariant.{
  Inv, InvDb, SameMessages, Same-Inv, delete-Inv, advance_if_pinned-Inv, terminate-Inv,
}

-- `next_of` fails a message without attempts left, so what waits again has one.
requeue-Inv :
    (now : ℕ) (reason : Text) (msg : Message) (db : Db)
    → In msg db.messages
    → InvDb db
    → InvDb (requeue now reason msg db)
unfolding requeue
requeue-Inv now reason msg db row v = released msg.assigned_sim_id
  where
    changed :
        Inv
          (update_where
            (λ m. m.id == msg.id)
            (unassigned now (next_of msg) (error_of msg reason))
            db.messages)
          (delete_where (λ s. s.message_id == msg.id) db.sends)
    changed =
        delete-Inv msg.id _ db.messages db.sends (λ m. refl)
          (λ m i e.
            let one = In-same_key message_key m msg db.messages v.keyed i row e in
            let sound = v.each msg row in rw one (ground arith))
          v

    released :
        (sim : Option ℕ) → InvDb (requeue now reason (record msg { assigned_sim_id = sim }) db)
    released none = changed
    released (some sim) = unfold release in changed

pub reject_and_requeue-Inv :
    (now id : ℕ) (reason : Text) (db : Db) → InvDb db → InvDb (reject_and_requeue now id reason db)
unfolding reject_and_requeue
reject_and_requeue-Inv now id reason db v = elim (Option-cases (find_message id db)) [
  | inl missing ↦ rw (missing, reject_and_requeue) v
  | inr (m, found) ↦
      rw (found, reject_and_requeue)
        (requeue-Inv now reason m db (first-In _ m db.messages found) v)
]

release_found-Inv :
    (now : ℕ) (m : Option Message) (db : Db) → InvDb db → InvDb (release_found now m db)
release_found-Inv now none db v = v
release_found-Inv now (some m) db v = assigned m.assigned_sim_id
  where
    assigned : (sim : Option ℕ) → InvDb (release_assigned now sim m.segments db)
    assigned none = v
    assigned (some sim) = unfold release in v

pub on_send_ack-Inv :
    (now : ℕ) (a : SendAckData) (db : Db) → InvDb db → InvDb (on_send_ack now a db)
unfolding on_send_ack
on_send_ack-Inv now a db v = by_result a.result
  where
    by_result : (r : AckResult) → InvDb (ack_result now r a.message_id a.reason db)
    by_result AckResult.accepted = advance_if_pinned-Inv now _ _ _ _ db refl v
    by_result AckResult.duplicate = advance_if_pinned-Inv now _ _ _ _ db refl v
    by_result AckResult.rejected = reject_and_requeue-Inv now _ _ db v
    by_result AckResult.other = v

pub on_delivery_report-Inv :
    (now : ℕ) (dr : DeliveryReportData) (db : Db) → InvDb db → InvDb (on_delivery_report now dr db)
unfolding on_delivery_report
on_delivery_report-Inv now dr db v = by_status dr.status
  where
    by_status : (r : ReportStatus) → InvDb (report_status now r dr.message_id dr.reason db)
    by_status ReportStatus.sent = advance_if_pinned-Inv now _ _ _ _ db refl v
    by_status ReportStatus.delivered = advance_if_pinned-Inv now _ _ _ _ db refl v
    by_status ReportStatus.send_failed = reject_and_requeue-Inv now _ _ db v
    by_status ReportStatus.failed =
        terminate-Inv now _ _ _ _ _ refl refl (release_found-Inv now _ db v)
    by_status ReportStatus.other = v

pub on_cancel_ack-Inv :
    (now : ℕ) (ca : CancelAckData) (db : Db) → InvDb db → InvDb (on_cancel_ack now ca db)
unfolding on_cancel_ack
on_cancel_ack-Inv now ca db v = by_result ca.result
  where
    by_result : (r : CancelResult) → InvDb (cancel_result now r ca.message_id db)
    by_result CancelResult.cancelled =
        terminate-Inv now _ _ _ _ _ refl refl (release_found-Inv now _ db v)
    by_result CancelResult.already_sent = v
    by_result CancelResult.other = v

-- SIM reports and quotas leave messages and ledger alone.
pub upsert_sims-Same :
    (now : ℕ) (ids : Ids) (device : ℕ) (report : List SimInfo) (db : Db)
    → SameMessages db (upsert_sims now ids device report db).0
upsert_sims-Same now ids device report db =
    unfold upsert_sims in
    elim (Bool-cases (upsert_sims now ids device report db).1) [
      | inl t ↦ ground arith
      | inr f ↦ ground arith
    ]

pub apply_quota-Same :
    (now device : ℕ) (sq : SetQuotaData) (db : Db) → SameMessages db (apply_quota now device sq db)
unfolding apply_quota set_sim_quota
apply_quota-Same now device sq db = ground arith

-- Any frame keeps the invariant of the messages.
pub handle_frame-Inv :
    (e : Env) (device : ℕ) (f : Inbound) (st : State)
    → InvDb st.db
    → InvDb (handle_frame e device f st).db
unfolding handle_frame
handle_frame-Inv e device (Inbound.send_ack a) st v = on_send_ack-Inv _ a st.db v
handle_frame-Inv e device (Inbound.delivery_report dr) st v = on_delivery_report-Inv _ dr st.db v
handle_frame-Inv e device (Inbound.cancel_ack ca) st v = on_cancel_ack-Inv _ ca st.db v
handle_frame-Inv e device (Inbound.sim_report sims) st v =
    Same-Inv st.db (upsert_sims (now_of e) e.ids device sims st.db).0
      (upsert_sims-Same (now_of e) e.ids device sims st.db) v
handle_frame-Inv e device (Inbound.set_quota sq) st v =
    Same-Inv st.db (apply_quota (now_of e) device sq st.db)
      (apply_quota-Same (now_of e) device sq st.db) v
handle_frame-Inv e device (Inbound.hello h) st v = elim (Bool-cases (is_empty h.push_token)) [
  | inl t ↦ rw t v
  | inr f ↦ rw f (unfold set_push_token in v)
]
handle_frame-Inv e device Inbound.heartbeat st v = v
handle_frame-Inv e device Inbound.other st v = v
