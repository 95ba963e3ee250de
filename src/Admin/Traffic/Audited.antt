-- ===== src/Admin/Traffic/Audited.antt =====
-- The audit trail of the handlers of messages (server/internal/admin).
use wsms_gateway.Base.{
  ℕ, ◌≡◌, refl, inl, inr, Bool, true, Option, none, some, arith, Bool-cases, Option-cases, ap, any,
}
use wsms_gateway.Models.Records.{Text, is_empty, Message, Db}
use wsms_gateway.Admin.Console.{Console, ConsoleEnv, User, can_unmask}
use wsms_gateway.Admin.Trail.{Trace, untraced, traced_once, traced_client}
use wsms_gateway.Base.{◌==◌, ◌&&◌}
use wsms_gateway.Models.Enums.{is_queued}
use wsms_gateway.Router.Msisdn.{normalize_msisdn}
use wsms_gateway.Dispatch.State.{find_message}
use wsms_gateway.Api.Messages.{is_over}
use wsms_gateway.Admin.Traffic.{
  Compose, cancel_queued, message_cancel, unmask_msisdn, admin_client_id, queue_composed,
  compose_to, send_compose,
}

module _ (e : ConsoleEnv) (u : User) (made : Bool) (c : Console) where
  cancel_queued-audits : (id : ℕ) (m : Message) → (cancel_queued e id m c).db.audits ≡ c.db.audits
  unfolding cancel_queued
  cancel_queued-audits id m =
      elim (Bool-cases (any (λ (x : Message). x.id == id && is_queued x.status) c.db.messages)) [
        | inl q ↦ rw q
        | inr q ↦ elim (Bool-cases (is_over m.status)) [ inl o ↦ rw (q, o) | inr o ↦ rw (q, o) ]
      ]

  pub message_cancel-Trace : (id : ℕ) → Trace e u made c (message_cancel e u id c).1
  unfolding message_cancel
  message_cancel-Trace id = elim (Option-cases (find_message id c.db)) [
    | inl q ↦ rw (q, message_cancel) (untraced e u made c)
    | inr (m, q) ↦
        rw (q, message_cancel) (traced_once e u made c _ id _ _ (cancel_queued-audits id m) refl)
  ]

  pub unmask_msisdn-Trace :
      (id : ℕ) (reason : Text) → Trace e u made c (unmask_msisdn e u id reason c).1
  unfolding unmask_msisdn
  unmask_msisdn-Trace id reason = elim (Bool-cases (can_unmask u.role)) [
    | inr f ↦ rw f (untraced e u made c)
    | inl f ↦ elim (Option-cases (find_message id c.db)) [
      | inl q ↦ rw (f, q) (untraced e u made c)
      | inr (m, q) ↦ rw (f, q) (traced_once e u made c _ id _ _ refl refl)
    ]
  ]

  queue_composed-Trace :
      (m : Message) (db : Db)
      → made ≡ true
      → db ≡ record c.db { clients = db.clients }
      → Trace e u made c (queue_composed e u m (record c { db = db })).1
  unfolding queue_composed
  queue_composed-Trace m db y h = elim (Bool-cases (e.stores 0)) [
    | inl q ↦ rw q (traced_once e u made c _ _ _ _ (ap (λ (d : Db). d.audits) h) refl)
    | inr q ↦ rw q (traced_client e u made c db y h)
  ]

  made_client :
      (admin_client_id e c.db).1 ≡ record c.db { clients = (admin_client_id e c.db).1.clients }
  unfolding admin_client_id
  made_client = ground arith

  compose_to-Trace :
      (form : Compose) (canonical : Option Text)
      → made ≡ true
      → Trace e u made c (compose_to e u form canonical c).1
  unfolding compose_to
  compose_to-Trace form none y = untraced e u made c
  compose_to-Trace form (some canonical) y = elim (Bool-cases (is_empty form.message)) [
    | inl q ↦ rw q (untraced e u made c)
    | inr q ↦ rw q (queue_composed-Trace _ _ y made_client)
  ]

  pub send_compose-Trace :
      (form : Compose) → made ≡ true → Trace e u made c (send_compose e u form c).1
  unfolding send_compose
  send_compose-Trace form y = compose_to-Trace form (normalize_msisdn form.to) y
