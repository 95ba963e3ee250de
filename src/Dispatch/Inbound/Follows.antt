-- ===== src/Dispatch/Inbound/Follows.antt =====
-- What the frames of devices (server/internal/dispatch/dispatcher.go) make of each message.
use wsms_gateway.Base.{
  ℕ, ◌≡◌, refl, Bool, true, ◌&&◌, Option, none, some, arith, ◌==◌, any, update_where, Option-cases,
  Bool-cases, inl, inr,
}
use wsms_gateway.Models.Enums.{MessageStatus, EventType, is_pinned}
use wsms_gateway.Models.Records.{Text, is_empty, Message, Db}
use wsms_gateway.Text.{text}
use wsms_gateway.Ws.Protocol.{
  AckResult, SendAckData, ReportStatus, DeliveryReportData, CancelResult, CancelAckData, Inbound,
}
use wsms_gateway.Router.Engine.{release}
use wsms_gateway.Dispatch.State.{
  State, Env, now_of, find_message, with_status, set_status, terminate, advance_if_pinned,
  release_assigned,
}
use wsms_gateway.Dispatch.Lifecycle.{Follows, Follows-refl, Each, Each-same, Each-update, is_edge}
use wsms_gateway.Dispatch.Inbound.{
  next_of, error_of, unassigned, requeue, reject_and_requeue, ack_result, on_send_ack,
  release_found, report_status, on_delivery_report, cancel_result, on_cancel_ack, set_push_token,
  handle_frame,
}
use wsms_gateway.Dispatch.Inbound.Preserves.{upsert_sims-Same, apply_quota-Same}

module _ (now : ℕ) (db : Db) where
  abbrev Goes : Db → Type 0
  Goes after = Each Follows db.messages after.messages

  stays : Goes db
  stays = Each-same Follows db.messages db.messages Follows-refl refl

  advance-Goes :
      (id : ℕ) (to : MessageStatus) (ev : EventType) (reason : Text)
      → ((s : MessageStatus) → is_pinned s ≡ true → is_edge s to ≡ true)
      → Goes (advance_if_pinned now id to ev reason db)
  unfolding advance_if_pinned
  advance-Goes id to ev reason edge =
      let p : Message → Bool = λ m. m.id == id && is_pinned m.status in
      let moved : Each Follows db.messages
          (update_where p (with_status now to reason) db.messages) =
        Each-update Follows db.messages _ p (with_status now to reason) (λ m. refl)
          (λ m. elim (Bool-cases (p m)) [
            | inl t ↦ rw t (ground (arith, edge m.status))
            | inr n ↦ rw n (Follows-refl m)
          ])
          refl in
      elim (Bool-cases (any p db.messages)) [ inl t ↦ rw t moved | inr n ↦ rw n moved ]

  terminate-Goes :
      (m : Option Message) (to : MessageStatus) (ev : EventType) (reason : Text) (from : Db)
      → from.messages ≡ db.messages
      → ((x : Message) → Follows x (with_status now to reason x))
      → Goes (terminate now m to ev reason from)
  unfolding terminate set_status
  terminate-Goes none to ev reason from same f =
      Each-same Follows db.messages from.messages Follows-refl same
  terminate-Goes (some m) to ev reason from same f =
      Each-update Follows db.messages _ (λ x. x.id == m.id) (with_status now to reason) (λ x. refl)
        (λ x. elim (Bool-cases (x.id == m.id)) [
          | inl t ↦ rw t (f x)
          | inr n ↦ rw n (Follows-refl x)
        ])
        (rw same refl)

  released : (sim : Option ℕ) (seg : ℕ) → (release_assigned now sim seg db).messages ≡ db.messages
  released none seg = refl
  released (some sim) seg = unfold release in refl

  found_released : (m : Option Message) → (release_found now m db).messages ≡ db.messages
  found_released none = refl
  found_released (some m) = released m.assigned_sim_id m.segments

  fails : (reason : Text) (x : Message) → Follows x (with_status now MessageStatus.failed reason x)
  fails reason x = ground arith

  stops :
      (reason : Text) (x : Message) → Follows x (with_status now MessageStatus.cancelled reason x)
  stops reason x = ground arith

  unassigned-Follows :
      (m : Message) (reason : Text) (x : Message)
      → Follows x (unassigned now (next_of m) (error_of m reason) x)
  unfolding unassigned
  unassigned-Follows m reason x = ground arith

  requeue-Goes : (reason : Text) (m : Message) → Goes (requeue now reason m db)
  unfolding requeue
  requeue-Goes reason m =
      Each-update Follows db.messages _ (λ x. x.id == m.id)
        (unassigned now (next_of m) (error_of m reason)) (λ x. unfold unassigned in refl)
        (λ x. elim (Bool-cases (x.id == m.id)) [
          | inl t ↦ rw t (unassigned-Follows m reason x)
          | inr n ↦ rw n (Follows-refl x)
        ])
        (rw (released m.assigned_sim_id m.segments) refl)

  reject-Goes : (id : ℕ) (reason : Text) → Goes (reject_and_requeue now id reason db)
  unfolding reject_and_requeue
  reject-Goes id reason = elim (Option-cases (find_message id db)) [
    | inl missing ↦ rw (missing, reject_and_requeue) stays
    | inr (m, found) ↦ rw (found, reject_and_requeue) (requeue-Goes reason m)
  ]

  pub on_send_ack-Goes : (a : SendAckData) → Goes (on_send_ack now a db)
  unfolding on_send_ack
  on_send_ack-Goes a = by_result a.result
    where
      by_result : (r : AckResult) → Goes (ack_result now r a.message_id a.reason db)
      by_result AckResult.accepted = advance-Goes _ _ _ _ (λ s h. ground arith)
      by_result AckResult.duplicate = advance-Goes _ _ _ _ (λ s h. ground arith)
      by_result AckResult.rejected = reject-Goes _ _
      by_result AckResult.other = stays

  pub on_delivery_report-Goes : (dr : DeliveryReportData) → Goes (on_delivery_report now dr db)
  unfolding on_delivery_report
  on_delivery_report-Goes dr = by_status dr.status
    where
      by_status : (r : ReportStatus) → Goes (report_status now r dr.message_id dr.reason db)
      by_status ReportStatus.sent = advance-Goes _ _ _ _ (λ s h. ground arith)
      by_status ReportStatus.delivered = advance-Goes _ _ _ _ (λ s h. ground arith)
      by_status ReportStatus.send_failed = reject-Goes _ _
      by_status ReportStatus.failed =
          terminate-Goes (find_message dr.message_id db) _ _ _ _ (found_released _)
            (fails dr.reason)
      by_status ReportStatus.other = stays

  pub on_cancel_ack-Goes : (ca : CancelAckData) → Goes (on_cancel_ack now ca db)
  unfolding on_cancel_ack
  on_cancel_ack-Goes ca = by_result ca.result
    where
      by_result : (r : CancelResult) → Goes (cancel_result now r ca.message_id db)
      by_result CancelResult.cancelled =
          terminate-Goes (find_message ca.message_id db) _ _ _ _ (found_released _)
            (stops (text "cancelled before send"))
      by_result CancelResult.already_sent = stays
      by_result CancelResult.other = stays

-- Each message follows the diagram over any frame.
pub handle_frame-Follows :
    (e : Env) (device : ℕ) (f : Inbound) (st : State)
    → Each Follows st.db.messages (handle_frame e device f st).db.messages
unfolding handle_frame
handle_frame-Follows e device (Inbound.send_ack a) st = on_send_ack-Goes _ st.db a
handle_frame-Follows e device (Inbound.delivery_report dr) st = on_delivery_report-Goes _ st.db dr
handle_frame-Follows e device (Inbound.cancel_ack ca) st = on_cancel_ack-Goes _ st.db ca
handle_frame-Follows e device (Inbound.sim_report sims) st =
    Each-same Follows st.db.messages _ Follows-refl
      (upsert_sims-Same (now_of e) e.ids device sims st.db).0
handle_frame-Follows e device (Inbound.set_quota sq) st =
    Each-same Follows st.db.messages _ Follows-refl (apply_quota-Same (now_of e) device sq st.db).0
handle_frame-Follows e device (Inbound.hello h) st = elim (Bool-cases (is_empty h.push_token)) [
  | inl t ↦ rw t (stays (now_of e) st.db)
  | inr f ↦ rw f (unfold set_push_token in stays (now_of e) st.db)
]
handle_frame-Follows e device Inbound.heartbeat st = stays (now_of e) st.db
handle_frame-Follows e device Inbound.other st = stays (now_of e) st.db
