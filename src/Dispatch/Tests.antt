-- ===== src/Dispatch/Tests.antt =====
-- Runs of the dispatcher, and its theorems at a small fleet.
use mathlib.Core.Bool.{true≢false}
use wsms_gateway.Base.{
  ℕ, ◌-◌, ◌≤◌, arith, true, inl, inr, In, ◌==◌, ◌≡◌, refl, ◌⊎◌, false, some, [], ◌∷◌, any,
}
use wsms_gateway.Models.Enums.{MessageStatus, is_queued}
use wsms_gateway.Models.Records.{Message, Db}
use wsms_gateway.Text.{text}
use wsms_gateway.Ws.Protocol.{AckResult, ReportStatus, DeliveryReportData}
use wsms_gateway.Dispatch.State.{find_message, with_status}
use wsms_gateway.Dispatch.State.{State, Env}
use wsms_gateway.Dispatch.Send.{claimable, dispatch_one, drain}
use wsms_gateway.Dispatch.Send.Drain.{Ends, drain-Ends}
use wsms_gateway.Dispatch.Send.Starved.{drain_starves}
use wsms_gateway.Dispatch.Send.Claim.{Claims, dispatch_one-Claims}
use wsms_gateway.Dispatch.Send.Untouched.{dispatch_one_pinned}
use wsms_gateway.Dispatch.Inbound.{next_of, on_send_ack, on_delivery_report}
use wsms_gateway.Dispatch.Inbound.Late.{
  Rejected, FailedOn, on_send_ack_rejected, on_delivery_report_failure,
}
use wsms_gateway.Dispatch.Invariant.{has_send}
use wsms_gateway.Dispatch.Reaper.{reap}
use wsms_gateway.Dispatch.Reaper.Effects.{Reaped, reap-Reaped}
use wsms_gateway.Samples.{otp, fleet_db, quiet, start, delivered_otp, late_db, late_state}

dispatch_one-Claims_example :
    ((dispatch_one quiet start ≡ (start, false))
      × (any (claimable quiet) start.db.messages ≡ false))
    ⊎ Claims quiet start
dispatch_one-Claims_example = dispatch_one-Claims quiet start

dispatch_one_pinned_example :
    find_message 100 (dispatch_one quiet late_state).0.db ≡ some delivered_otp
dispatch_one_pinned_example = dispatch_one_pinned quiet late_state 100 (refl, tt) refl refl

-- A rejection that comes after the delivery report sends the message back to the queue.
on_send_ack_rejected_example :
    let after =
      on_send_ack 200000
        (record { message_id = 100; result = AckResult.rejected; reason = [] })
        late_db in
    ((m : Message) × (find_message 100 after ≡ some m) × Rejected [] delivered_otp m)
    × (has_send 100 after.sends ≡ false)
on_send_ack_rejected_example = on_send_ack_rejected 200000 100 [] late_db refl

reopened : next_of delivered_otp ≡ MessageStatus.queued
reopened = refl

-- The delivered message of two segments is reported as failed twice, and its SIM had sent five.
on_delivery_report_failure_example :
    let failure : DeliveryReportData = record {
      message_id = 100;
      status = ReportStatus.failed;
      reason = [];
    } in
    let once = on_delivery_report 200000 failure late_db in
    FailedOn 100 10 (3, 3) once × FailedOn 100 10 (1, 1) (on_delivery_report 200001 failure once)
on_delivery_report_failure_example =
    on_delivery_report_failure 200000 200001 100 10 5 5 [] [] late_db refl refl (ground arith) refl

abbrev sent_otp : Message
sent_otp = record delivered_otp { status = MessageStatus.sent }

abbrev sent_db : Db
sent_db = record late_db { messages = sent_otp ∷ [] }

reap-Reaped_example :
    (m : Message) × (find_message 100 sent_db ≡ some m)
    × Reaped 900000 1200000 m (
        with_status 1200000 MessageStatus.sent_unconfirmed
          (text "no delivery confirmation within window")
          sent_otp)
reap-Reaped_example = reap-Reaped 900000 1200000 100 sent_db reaped_row
  where
    reaped_row :
        find_message 100 (reap 900000 1200000 sent_db)
        ≡ some (
            with_status 1200000 MessageStatus.sent_unconfirmed
              (text "no delivery confirmation within window")
              sent_otp)
    reaped_row = unfold reap in refl

-- The one message of the small store expires before the last round begins.
drain-Ends_example :
    let late_round : ℕ → Env =
      λ k. record quiet { engine = record quiet.engine { now = 900000 - k } } in
    ((drain 3 late_round start).1 ≡ false)
    × ((k : ℕ) × (k ≤ 2)
        × Ends late_round 2 start k (drain 3 late_round start).0
        × (any (claimable (late_round k)) (drain 3 late_round start).0.db.messages ≡ false))
drain-Ends_example =
    drain-Ends 2 (λ k. record quiet { engine = record quiet.engine { now = 900000 - k } }) start
      (ground arith, tt)

-- The same store with no SIM.
abbrev stranded : State
stranded = record start { db = record fleet_db { sims = [] } }

drain_starves_example :
    ((drain 50 (λ k. quiet) stranded).1 ≡ true)
    × ((y : Message)
        → In y stranded.db.messages
        → (y.id == otp.id) ≡ false
        → In y (drain 50 (λ k. quiet) stranded).0.db.messages)
    × ((z : Message) × In z (drain 50 (λ k. quiet) stranded).0.db.messages
        × (z.id ≡ otp.id)
        × (is_queued z.status ≡ true))
drain_starves_example =
    drain_starves 50 (λ k. quiet) otp stranded
      (record {
        row = inl refl;
        queued = refl;
        keyed = (refl, tt);
        oldest = λ y i other. elim i [
          | inl e ↦ absurd (true≢false (rw e at other))
          | inr none_left ↦ absurd none_left
        ];
        nobody = λ s i. absurd i;
      })
      (λ k. (ground arith, ground arith, refl))
