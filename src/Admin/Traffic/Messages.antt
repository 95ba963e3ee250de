-- ===== src/Admin/Traffic/Messages.antt =====
-- The console's handlers of messages (server/internal/admin): the invariant of the messages, and the
-- diagram of their statuses.
use mathlib.Core.Bool.{false≢true}
use wsms_gateway.Base.{
  ℕ, ◌≡◌, refl, false, ◌&&◌, Option, none, some, [], ◌∷◌, arith, ◌==◌, any, Option-cases,
  Bool-cases, inl, inr,
}
use wsms_gateway.Models.Enums.{is_queued}
use wsms_gateway.Models.Records.{Text, is_empty, Message, Db}
use wsms_gateway.Router.Msisdn.{normalize_msisdn}
use wsms_gateway.Dispatch.State.{find_message}
use wsms_gateway.Dispatch.Invariant.{IsSound, SameMessages}
use wsms_gateway.Dispatch.Keeps.{Keeps, Keeps-same}
use wsms_gateway.Dispatch.Lifecycle.{Follows, Follows-refl, Each-append}
use wsms_gateway.Api.Messages.{is_over}
use wsms_gateway.Api.Messages.Stored.{append-Inv, cancel_where-Inv}
use wsms_gateway.Api.Messages.Follows.{cancel_where-Follows}
use wsms_gateway.Admin.Console.{Console, ConsoleEnv, User}
use wsms_gateway.Admin.Traffic.{
  Compose, cancel_row, cancel_queued, message_cancel, unmask_msisdn, composed, admin_client_id,
  queue_composed, compose_to, send_compose,
}

module _ (e : ConsoleEnv) (u : User) (c : Console) where
  cancel_queued-Keeps : (id : ℕ) (m : Message) → Keeps c.db (cancel_queued e id m c).db
  unfolding cancel_queued cancel_row
  cancel_queued-Keeps id m =
      elim (Bool-cases (any (λ (x : Message). x.id == id && is_queued x.status) c.db.messages)) [
        | inl t ↦ rw t (
          λ v. cancel_where-Inv e.now id _ c.db.messages c.db.sends v,
          cancel_where-Follows e.now id _ c.db.messages,
        )
        | inr f ↦ elim (Bool-cases (is_over m.status)) [
          | inl o ↦ rw (f, o) (Keeps-same _ _ _ _ (refl, refl))
          | inr o ↦ rw (f, o) (Keeps-same _ _ _ _ (refl, refl))
        ]
      ]

  pub message_cancel-Keeps : (id : ℕ) → Keeps c.db (message_cancel e u id c).1.db
  unfolding message_cancel
  message_cancel-Keeps id = elim (Option-cases (find_message id c.db)) [
    | inl q ↦ rw (q, message_cancel) (Keeps-same _ _ _ _ (refl, refl))
    | inr (m, q) ↦ rw (q, message_cancel) (cancel_queued-Keeps id m)
  ]

  pub unmask_msisdn-Same :
      (id : ℕ) (reason : Text) → SameMessages c.db (unmask_msisdn e u id reason c).1.db
  unfolding unmask_msisdn
  unmask_msisdn-Same id reason = ground arith

  admin_client_id-Same : SameMessages c.db (admin_client_id e c.db).1
  unfolding admin_client_id
  admin_client_id-Same = ground arith

  composed-IsSound :
      (client : ℕ) (form : Compose) (to : Text) → IsSound c.db.sends (composed e client form to)
  unfolding composed
  composed-IsSound client form to = record {
    capped = ground arith;
    fresh = λ q. ground arith;
    assigned = λ q. absurd (false≢true q);
    ledgered = λ q. absurd (false≢true q);
  }

  queue_composed-Keeps :
      (m : Message) (db : Db)
      → any (λ (x : Message). x.id == m.id) c.db.messages ≡ false
      → IsSound c.db.sends m
      → SameMessages c.db db
      → Keeps c.db (queue_composed e u m (record c { db = db })).1.db
  unfolding queue_composed
  queue_composed-Keeps m db fresh sound (ms, ss) = elim (Bool-cases (e.stores 0)) [
    | inr q ↦ rw q (Keeps-same _ _ _ _ (ms, ss))
    | inl q ↦
        rw (q, ms, ss)
          (
            λ v. append-Inv m c.db.messages c.db.sends fresh sound v,
            Each-append Follows c.db.messages _ (m ∷ []) Follows-refl refl,
          )
  ]

  compose_to-Keeps :
      (form : Compose) (to : Option Text)
      → any (λ (x : Message). x.id == e.new_id 0) c.db.messages ≡ false
      → Keeps c.db (compose_to e u form to c).1.db
  unfolding compose_to
  compose_to-Keeps form none fresh = Keeps-same _ _ _ _ (refl, refl)
  compose_to-Keeps form (some to) fresh = elim (Bool-cases (is_empty form.message)) [
    | inl q ↦ rw q (Keeps-same _ _ _ _ (refl, refl))
    | inr q ↦ rw q (
        queue_composed-Keeps (composed e (admin_client_id e c.db).0 form to)
          (admin_client_id e c.db).1 (unfold composed in fresh)
          (composed-IsSound (admin_client_id e c.db).0 form to) admin_client_id-Same)
  ]

  pub send_compose-Keeps :
      (form : Compose)
      → any (λ (x : Message). x.id == e.new_id 0) c.db.messages ≡ false
      → Keeps c.db (send_compose e u form c).1.db
  unfolding send_compose
  send_compose-Keeps form fresh = compose_to-Keeps form (normalize_msisdn form.to) fresh
