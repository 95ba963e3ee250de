-- ===== src/System/Tests.antt =====
-- A run of the server from a small fleet.
use mathlib.Core.Bool.{false≢true}
use wsms_gateway.Base.{subst, ℕ, ◌+◌, ◌≤◌, ◌<◌, ◌≡◌, refl, inl, inr, true, some, [], ◌∷◌, In, arith}
use wsms_gateway.Models.Enums.{MessageStatus, Operator, is_terminal}
use wsms_gateway.Models.Records.{Message}
use wsms_gateway.Text.{text}
use wsms_gateway.Ws.Protocol.{AckResult, Inbound}
use wsms_gateway.Router.Engine.{route}
use wsms_gateway.Ws.Hub.{send_to}
use wsms_gateway.Dispatch.State.{State, find_message, advance_if_pinned}
use wsms_gateway.Dispatch.Send.{claim, dispatch_one}
use wsms_gateway.Dispatch.Inbound.{on_send_ack, handle_frame}
use wsms_gateway.Dispatch.Reaper.{reap}
use wsms_gateway.Dispatch.Invariant.{InvDb, IsSound}
use wsms_gateway.Retention.{purge}
use wsms_gateway.Samples.{quiet, start, otp, fleet_db}
use wsms_gateway.System.{with_db, Step, Reachable, Reachable-Inv, Advances, Step-Advances}
use wsms_gateway.System.Lifecycle.{Lasts, Reachable-Lasts, Reachable-settles}

otp-IsSound : IsSound [] otp
otp-IsSound = record {
  capped = ground arith;
  fresh = λ q. ground arith;
  assigned = λ q. absurd (false≢true q);
  ledgered = λ q. absurd (false≢true q);
}

fleet-InvDb : InvDb fleet_db
fleet-InvDb = record {
  keyed = (refl, tt);
  each = λ m i. elim i [ inl e ↦ rw e otp-IsSound | inr n ↦ absurd n ];
}

abbrev after_work : State
after_work = (dispatch_one quiet start).0

abbrev ack : Inbound
ack = Inbound.send_ack (record { message_id = 100; result = AckResult.accepted; reason = [] })

abbrev after_ack : State
after_ack = handle_frame quiet 1 ack after_work

abbrev after_tick : State
after_tick = record after_ack { db = reap 900000 1200000 after_ack.db }

abbrev run : Reachable start after_tick
run =
    Reachable.next start after_ack after_tick
      (Reachable.next start after_work after_ack
        (Reachable.next start start after_work (Reachable.here start) (Step.work quiet start refl))
        (Step.frame quiet 1 ack after_work))
      (Step.tick 900000 1200000 after_ack)

Reachable-Inv_example : InvDb after_tick.db
Reachable-Inv_example = Reachable-Inv start after_tick run fleet-InvDb

Step-Advances_example : Advances start after_work
Step-Advances_example = Step-Advances start after_work (Step.work quiet start refl) fleet-InvDb

-- The message when it is over.
abbrev over : Message
over = record otp {
  status = MessageStatus.sent_unconfirmed;
  assigned_sim_id = some 10;
  assigned_device_id = some 1;
  assigned_operator = some Operator.telkomsel;
  attempts = 1;
  last_error = text "no delivery confirmation within window";
  dispatched_at = some 100000;
  updated_at = 1200000;
}

found_over : find_message 100 (reap 900000 1200000 after_ack.db) ≡ some over
unfolding dispatch_one handle_frame reap on_send_ack advance_if_pinned claim route send_to
found_over = refl

abbrev acked : Message
acked = record over { status = MessageStatus.dispatched; last_error = []; updated_at = 100000 }

rows_after_ack : after_ack.db.messages ≡ acked ∷ []
unfolding dispatch_one handle_frame on_send_ack advance_if_pinned claim route send_to
rows_after_ack = refl

to_ack : Reachable start after_ack
to_ack =
    Reachable.next start after_work after_ack
      (Reachable.next start start after_work (Reachable.here start) (Step.work quiet start refl))
      (Step.frame quiet 1 ack after_work)

-- A purge follows that is too early for the message.
abbrev after_purge : State
after_purge = with_db after_tick (purge 0 after_tick.db)

Reachable-Lasts_example :
    (m : Message) × (find_message 100 after_purge.db ≡ some m) × Lasts otp m × (m.attempts ≤ 3)
Reachable-Lasts_example =
    Reachable-Lasts start after_purge 100 otp (Reachable.purged start after_tick 0 run)
      (tt, ground arith) fleet-InvDb refl

Reachable-settles_example : is_terminal over.status ≡ true
Reachable-settles_example =
    Reachable-settles start after_ack 900000 1200000 to_ack fleet-InvDb late waited 100 over
      found_over
  where
    late : (m : Message) → In m after_ack.db.messages → m.expires_at ≤ 1200000
    late m i = elim (subst (In m) rows_after_ack i) [
      | inl e ↦ rw e (omega arith)
      | inr n ↦ absurd n
    ]

    waited :
        (m : Message) (t : ℕ)
        → In m after_ack.db.messages
        → m.dispatched_at ≡ some t
        → t + 900000 < 1200000
    waited m t i e = elim (subst (In m) rows_after_ack i) [
      | inl q ↦
          let at : some 100000 ≡ some t = rw q at e in
          let same : 100000 ≡ t = ground arith in omega (arith, same)
      | inr n ↦ absurd n
    ]
