-- ===== src/Dispatch/Inbound/Late.antt =====
-- Late and repeated frames (server/internal/dispatch/dispatcher.go): acknowledgements, rejections and
-- reports for a message that is not pinned any more.
use mathlib.Core.Option
use wsms_gateway.Base.{
  ℕ, ◌-◌, ◌<◌, ◌≤◌, ◌≡◌, refl, sym, subst, ap, ◌∙◌, false, Option, none, some, arith, ◌==◌,
  first_sound, by_key, update_where, IsKeyed,
}
use wsms_gateway.Models.Enums.{MessageStatus, EventType, is_pinned}
use wsms_gateway.Models.Records.{Text, Message, Db}
use wsms_gateway.Ws.Protocol.{AckResult, SendAckData, ReportStatus, DeliveryReportData}
use wsms_gateway.Router.Engine.{release}
use wsms_gateway.Router.Engine.Quota.{counters, counters-release}
use wsms_gateway.Dispatch.Lifecycle.{SamePayload}
use wsms_gateway.Dispatch.State.{
  message_key, find_message, with_status, set_status, terminate, release_assigned,
}
use wsms_gateway.Dispatch.State.Advance.{advance_if_pinned_late}
use wsms_gateway.Dispatch.Invariant.{has_send, has_send-delete_self}
use wsms_gateway.Dispatch.Send.Outcome.{find-by_id}
use wsms_gateway.Dispatch.Inbound.{
  next_of, error_of, unassigned, requeue, reject_and_requeue, ack_result, on_send_ack,
  report_status, on_delivery_report,
}

-- An acknowledgement other than a rejection, for a message that is no longer pinned, changes
-- nothing.
pub on_send_ack_late :
    (now : ℕ) (a : SendAckData) (db : Db) {m : Message}
    → IsKeyed message_key db.messages
    → find_message a.message_id db ≡ some m
    → is_pinned m.status ≡ false
    → (a.result ≡ AckResult.rejected → ⊥)
    → on_send_ack now a db ≡ db
unfolding on_send_ack ack_result
on_send_ack_late now a db {m} u found late kept = by_result a.result kept
  where
    by_result :
        (r : AckResult)
        → (r ≡ AckResult.rejected → ⊥)
        → ack_result now r a.message_id a.reason db ≡ db
    by_result AckResult.accepted k = advance_if_pinned_late now _ _ _ _ db u found late
    by_result AckResult.duplicate k = advance_if_pinned_late now _ _ _ _ db u found late
    by_result AckResult.rejected k = absurd (k refl)
    by_result AckResult.other k = refl

requeue_row :
    (now : ℕ) (reason : Text) (db : Db) (m : Message)
    → find_message m.id db ≡ some m
    → let after = requeue now reason m db in
      (find_message m.id after ≡ some (unassigned now (next_of m) (error_of m reason) m))
      × (has_send m.id after.sends ≡ false)
unfolding requeue
requeue_row now reason db m found = (by_sim m.assigned_sim_id, has_send-delete_self m.id _)
  where
    by_sim :
        (sim : Option ℕ)
        → by_key message_key m.id (
            update_where
              (λ x. x.id == m.id)
              (unassigned now (next_of m) (error_of m reason))
              (release_assigned now sim m.segments db).messages)
          ≡ some (unassigned now (next_of m) (error_of m reason) m)
    by_sim none =
        find-by_id m.id (unassigned now (next_of m) (error_of m reason)) db.messages (λ x. refl)
        ∙ ap (Option.map (unassigned now (next_of m) (error_of m reason))) found
    by_sim (some k) =
        unfold release in
        find-by_id m.id (unassigned now (next_of m) (error_of m reason)) db.messages (λ x. refl)
        ∙ ap (Option.map (unassigned now (next_of m) (error_of m reason))) found

found_id : (id : ℕ) (db : Db) {m : Message} → find_message id db ≡ some m → m.id ≡ id
found_id id db found = let self = first_sound (λ x. x.id == id) db.messages found in ground arith

-- What a rejection makes of a message.
pub record Rejected (reason : Text) (m after : Message) : Type 0 where
  pub no_sim : after.assigned_sim_id ≡ none
  pub no_device : after.assigned_device_id ≡ none
  pub again :
      m.attempts < m.max_attempts
      → (after.status ≡ MessageStatus.queued) × (after.last_error ≡ reason)
  pub spent : m.max_attempts ≤ m.attempts → after.status ≡ MessageStatus.failed
  pub tried : after.attempts ≡ m.attempts
  pub payload : SamePayload m after

unassigned-Rejected :
    (now : ℕ) (reason : Text) (m : Message)
    → Rejected reason m (unassigned now (next_of m) (error_of m reason) m)
unfolding unassigned
unassigned-Rejected now reason m = record {
  no_sim = refl;
  no_device = refl;
  again = λ left. (ground arith, ground arith);
  spent = λ none_left. ground arith;
  tried = refl;
  payload = refl;
}

-- A rejection, whatever the status of the message: it is QUEUED again with the reason where it has
-- fewer attempts than its maximum and FAILED otherwise, it has no SIM or device, its attempts and
-- what the client submitted stay, and its ledger row is gone.
pub on_send_ack_rejected :
    (now id : ℕ) (reason : Text) (db : Db) {m : Message}
    → find_message id db ≡ some m
    → let after =
        on_send_ack now
          (record { message_id = id; result = AckResult.rejected; reason = reason })
          db in
      ((m' : Message) × (find_message id after ≡ some m') × Rejected reason m m')
      × (has_send id after.sends ≡ false)
unfolding on_send_ack ack_result reject_and_requeue
on_send_ack_rejected now id reason db {m} found =
    let same = found_id id db found in
    let row =
      subst
        (λ k.
          (find_message k (requeue now reason m db)
            ≡ some (unassigned now (next_of m) (error_of m reason) m))
          × (has_send k (requeue now reason m db).sends ≡ false))
        same
        (requeue_row now reason db m (subst (λ k. find_message k db ≡ some m) (sym same) found)) in
    rw (found, reject_and_requeue) ((_, row.0, unassigned-Rejected now reason m), row.1)

failed_row :
    (now sim : ℕ) (reason : Text) (db : Db) (m : Message)
    → find_message m.id db ≡ some m
    → let after =
        terminate now
          (some m)
          MessageStatus.failed
          EventType.failed
          reason
          (release now sim m.segments db) in
      (find_message m.id after ≡ some (with_status now MessageStatus.failed reason m))
      × (after.sims ≡ (release now sim m.segments db).sims)
unfolding terminate set_status release
failed_row now sim reason db m found = (
  find-by_id m.id (with_status now MessageStatus.failed reason) db.messages (λ x. refl)
      ∙ ap (Option.map (with_status now MessageStatus.failed reason)) found,
  refl,
)

-- One report of failure, for a message with a SIM.
reported :
    (now id sim : ℕ) (reason : Text) (db : Db) (m : Message)
    → find_message id db ≡ some m
    → m.assigned_sim_id ≡ some sim
    → let after =
        on_delivery_report now
          (record { message_id = id; status = ReportStatus.failed; reason = reason })
          db in
      (find_message id after ≡ some (with_status now MessageStatus.failed reason m))
      × (after.sims ≡ (release now sim m.segments db).sims)
unfolding on_delivery_report report_status
reported now id sim reason db m found sims =
    let same = found_id id db found in
    let after =
      terminate now (some m) MessageStatus.failed EventType.failed reason
        (release now sim m.segments db) in
    let row : (find_message id after ≡ some (with_status now MessageStatus.failed reason m))
        × (after.sims ≡ (release now sim m.segments db).sims) =
      subst
        (λ k.
          (find_message k after ≡ some (with_status now MessageStatus.failed reason m))
          × (after.sims ≡ (release now sim m.segments db).sims))
        same
        (failed_row now sim reason db m
          (subst (λ k. find_message k db ≡ some m) (sym same) found)) in
    (
      rw (found, ap (λ o. release_assigned now o m.segments db) sims) row.0,
      rw (found, ap (λ o. release_assigned now o m.segments db) sims) row.1,
    )

-- The message is FAILED and still has the SIM, whose counters are the two numbers.
abbrev pub FailedOn : ℕ → ℕ → ℕ × ℕ → Db → Type 0
FailedOn id sim counted db =
    ((m : Message) × (find_message id db ≡ some m)
      × (m.status ≡ MessageStatus.failed)
      × (m.assigned_sim_id ≡ some sim))
    × (counters sim db ≡ some counted)

-- Two reports of failure, whatever the status of the message: each makes it FAILED, leaves its SIM
-- assigned and takes the segments of the message, at least one, from the counters of the SIM; so the
-- second takes them again. Counters stop at 0.
pub on_delivery_report_failure :
    (now later id sim today window : ℕ) (reason again : Text) (db : Db) {m : Message}
    → find_message id db ≡ some m
    → m.assigned_sim_id ≡ some sim
    → 0 < m.segments
    → counters sim db ≡ some (today, window)
    → let failure : Text → DeliveryReportData =
        λ r. record { message_id = id; status = ReportStatus.failed; reason = r } in
      let once = on_delivery_report now (failure reason) db in
      let twice = on_delivery_report later (failure again) once in
      FailedOn id sim (today - m.segments, window - m.segments) once
      × FailedOn id sim (today - m.segments - m.segments, window - m.segments - m.segments) twice
on_delivery_report_failure now later id sim today window reason again db {m} found sims seg met =
    let failure : Text → DeliveryReportData =
      λ r. record { message_id = id; status = ReportStatus.failed; reason = r } in
    let once = on_delivery_report now (failure reason) db in
    let failed = with_status now MessageStatus.failed reason m in
    let (row, left) = reported now id sim reason db m found sims in
    let (row', left') = reported later id sim again once failed row sims in
    let counted : counters sim once ≡ some (today - m.segments, window - m.segments) =
      ap (λ ss. counters sim (record db { sims = ss })) left
      ∙ counters-release now sim m.segments today window db seg met in
    (
      ((_, row, refl, sims), counted),
      (
        (_, row', refl, sims),
        ap (λ ss. counters sim (record db { sims = ss })) left'
            ∙ counters-release later sim m.segments _ _ once seg counted,
      ),
    )
