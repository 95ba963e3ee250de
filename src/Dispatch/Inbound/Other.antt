-- ===== src/Dispatch/Inbound/Other.antt =====
-- A frame on one message (server/internal/dispatch/dispatcher.go) leaves all others.
use mathlib.Core.Option
use wsms_gateway.Base.{
  ℕ, ◌≡◌, refl, sym, ap, ◌∙◌, subst, Bool, false, ◌&&◌, Option, none, some, arith, any, ◌==◌,
  by_key, by_key-update_where, if◌then◌else◌, Option-cases, Bool-cases, inl, inr, first_sound,
}
use wsms_gateway.Models.Enums.{MessageStatus, EventType, is_pinned}
use wsms_gateway.Models.Records.{Text, Message, Db}
use wsms_gateway.Ws.Protocol.{AckResult, SendAckData, ReportStatus, DeliveryReportData}
use wsms_gateway.Router.Engine.{release}
use wsms_gateway.Dispatch.State.{
  message_key, find_message, with_status, terminate, advance_if_pinned, release_assigned,
}
use wsms_gateway.Dispatch.Send.Untouched.{Only, by_id-update_other, set_status-Only}
use wsms_gateway.Dispatch.Inbound.{
  requeue, reject_and_requeue, ack_result, on_send_ack, release_found, report_status,
  on_delivery_report,
}

advance_if_pinned-Only :
    (now id : ℕ) (to : MessageStatus) (ev : EventType) (reason : Text) (db : Db)
    → Only id db (advance_if_pinned now id to ev reason db)
unfolding advance_if_pinned
advance_if_pinned-Only now id to ev reason db k other =
    let p : Message → Bool = λ x. x.id == id && is_pinned x.status in
    let row =
      by_key-update_where message_key p (with_status now to reason) k db.messages (λ x. refl) in
    elim (Bool-cases (any p db.messages)) [
      | inl t ↦ rw t (row ∙ unmoved (find_message k db) refl)
      | inr f ↦ rw f (row ∙ unmoved (find_message k db) refl)
    ]
  where
    unmoved :
        (o : Option Message)
        → find_message k db ≡ o
        → Option.map
            (λ (x : Message).
              if x.id == id && is_pinned x.status then with_status now to reason x else x)
            o
          ≡ o
    unmoved none e = refl
    unmoved (some m) e =
        let self = first_sound (λ x. x.id == k) db.messages e in
        let differs : (m.id == id) ≡ false = ground arith in rw differs refl

found_id : (id : ℕ) (db : Db) {m : Message} → find_message id db ≡ some m → m.id ≡ id
found_id id db found = let self = first_sound (λ x. x.id == id) db.messages found in ground arith

messages-release_assigned :
    (now : ℕ) (sim : Option ℕ) (segments : ℕ) (db : Db)
    → (release_assigned now sim segments db).messages ≡ db.messages
messages-release_assigned now none segments db = refl
messages-release_assigned now (some sim) segments db = unfold release in refl

requeue-Only :
    (now : ℕ) (reason : Text) (m : Message) (db : Db) → Only m.id db (requeue now reason m db)
unfolding requeue
requeue-Only now reason m db k other =
    rw (messages-release_assigned now m.assigned_sim_id m.segments db)
      (by_id-update_other m.id k _ db.messages (λ x. refl) other)

reject_and_requeue-Only :
    (now id : ℕ) (reason : Text) (db : Db) → Only id db (reject_and_requeue now id reason db)
unfolding reject_and_requeue
reject_and_requeue-Only now id reason db = elim (Option-cases (find_message id db)) [
  | inl missing ↦ rw (missing, reject_and_requeue) (λ k other. refl)
  | inr (m, found) ↦
      rw (found, reject_and_requeue)
        (subst (λ i. Only i db (requeue now reason m db)) (found_id id db found)
          (requeue-Only now reason m db))
]

pub on_send_ack_other :
    (now id : ℕ) (a : SendAckData) (db : Db)
    → (id == a.message_id) ≡ false
    → find_message id (on_send_ack now a db) ≡ find_message id db
unfolding on_send_ack ack_result
on_send_ack_other now id a db other = by_result a.result
  where
    by_result :
        (r : AckResult)
        → find_message id (ack_result now r a.message_id a.reason db) ≡ find_message id db
    by_result AckResult.accepted = advance_if_pinned-Only now _ _ _ _ db id other
    by_result AckResult.duplicate = advance_if_pinned-Only now _ _ _ _ db id other
    by_result AckResult.rejected = reject_and_requeue-Only now _ _ db id other
    by_result AckResult.other = refl

failed-Only :
    (now id : ℕ) (reason : Text) (db : Db)
    → Only id db (
        terminate now
          (find_message id db)
          MessageStatus.failed
          EventType.failed
          reason
          (release_found now (find_message id db) db))
unfolding terminate
failed-Only now id reason db k other = elim (Option-cases (find_message id db)) [
  | inl missing ↦ rw (missing, terminate) refl
  | inr (m, found) ↦
      rw (found, terminate)
        (set_status-Only now m.id MessageStatus.failed reason
            (release_assigned now m.assigned_sim_id m.segments db) k
            (subst (λ i. (k == i) ≡ false) (sym (found_id id db found)) other)
          ∙ ap (by_key message_key k)
              (messages-release_assigned now m.assigned_sim_id m.segments db))
]

pub on_delivery_report_other :
    (now id : ℕ) (dr : DeliveryReportData) (db : Db)
    → (id == dr.message_id) ≡ false
    → find_message id (on_delivery_report now dr db) ≡ find_message id db
unfolding on_delivery_report report_status
on_delivery_report_other now id dr db other = by_status dr.status
  where
    by_status :
        (r : ReportStatus)
        → find_message id (report_status now r dr.message_id dr.reason db) ≡ find_message id db
    by_status ReportStatus.sent = advance_if_pinned-Only now _ _ _ _ db id other
    by_status ReportStatus.delivered = advance_if_pinned-Only now _ _ _ _ db id other
    by_status ReportStatus.send_failed = reject_and_requeue-Only now _ _ db id other
    by_status ReportStatus.failed = failed-Only now dr.message_id dr.reason db id other
    by_status ReportStatus.other = refl
