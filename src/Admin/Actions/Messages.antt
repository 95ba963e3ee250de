-- ===== src/Admin/Actions/Messages.antt =====
-- What the requests of the console make of the messages.
use wsms_gateway.Base.{◌≡◌, refl, false, ◌==◌, any, Option, Option-cases, Bool-cases, inl, inr}
use wsms_gateway.Models.Records.{Text, Message}
use wsms_gateway.Dispatch.Keeps.{Keeps, Keeps-same}
use wsms_gateway.Admin.Console.{Console, ConsoleEnv, User, can_mutate}
use wsms_gateway.Admin.Session.{require_session}
use wsms_gateway.Admin.Fleet.Messages.{
  sim_disable-Same, sim_enable-Same, sim_cooldown-Same, sim_quota-Same, device_rescan-Same,
  device_rename-Same, device_delete-Same,
}
use wsms_gateway.Admin.Routing.Messages.{save_routing-Same}
use wsms_gateway.Admin.Access.Messages.{
  issue_enrollment-Same, delete_enrollment-Same, create_client-Same, toggle_client-Same,
  delete_client-Same,
}
use wsms_gateway.Admin.Keys.Messages.{
  create_key-Same, revoke_key-Same, rotate_webhook_secret-Same, enable_key_signing-Same,
}
use wsms_gateway.Admin.Traffic.Messages.{
  message_cancel-Keeps, unmask_msisdn-Same, send_compose-Keeps,
}
use wsms_gateway.Admin.Actions.{Action, handle, is_unmask, perform, as_user, request}

module _ (e : ConsoleEnv) (c : Console)
    (fresh : any (λ (x : Message). x.id == e.new_id 0) c.db.messages ≡ false) where
  handle-Keeps : (u : User) (a : Action) → Keeps c.db (handle e u a c).1.db
  unfolding handle
  handle-Keeps u (Action.sim_disable id) = Keeps-same _ _ _ _ (sim_disable-Same e u c id)
  handle-Keeps u (Action.sim_enable id) = Keeps-same _ _ _ _ (sim_enable-Same e u c id)
  handle-Keeps u (Action.sim_cooldown id) = Keeps-same _ _ _ _ (sim_cooldown-Same e u c id)
  handle-Keeps u (Action.sim_quota id text) = Keeps-same _ _ _ _ (sim_quota-Same e u c id text)
  handle-Keeps u (Action.device_rescan id) = Keeps-same _ _ _ _ (device_rescan-Same e u c id)
  handle-Keeps u (Action.device_delete id) = Keeps-same _ _ _ _ (device_delete-Same e u c id)
  handle-Keeps u (Action.device_rename id text) =
      Keeps-same _ _ _ _ (device_rename-Same e u c id text)
  handle-Keeps u (Action.save_routing mode op) =
      Keeps-same _ _ _ _ (save_routing-Same e u c mode op)
  handle-Keeps u (Action.message_cancel id) = message_cancel-Keeps e u c id
  handle-Keeps u (Action.unmask id reason) = Keeps-same _ _ _ _ (unmask_msisdn-Same e u c id reason)
  handle-Keeps u (Action.send_compose form) = send_compose-Keeps e u c form fresh
  handle-Keeps u (Action.issue_enrollment label) =
      Keeps-same _ _ _ _ (issue_enrollment-Same e u c label)
  handle-Keeps u (Action.delete_enrollment id) =
      Keeps-same _ _ _ _ (delete_enrollment-Same e u c id)
  handle-Keeps u (Action.create_client name) = Keeps-same _ _ _ _ (create_client-Same e u c name)
  handle-Keeps u (Action.toggle_client id) = Keeps-same _ _ _ _ (toggle_client-Same e u c id)
  handle-Keeps u (Action.delete_client id) = Keeps-same _ _ _ _ (delete_client-Same e u c id)
  handle-Keeps u (Action.create_key id boxes) = Keeps-same _ _ _ _ (create_key-Same e u c id boxes)
  handle-Keeps u (Action.revoke_key id) = Keeps-same _ _ _ _ (revoke_key-Same e u c id)
  handle-Keeps u (Action.rotate_webhook_secret id) =
      Keeps-same _ _ _ _ (rotate_webhook_secret-Same e u c id)
  handle-Keeps u (Action.enable_key_signing id) =
      Keeps-same _ _ _ _ (enable_key_signing-Same e u c id)

  perform-Keeps : (u : User) (a : Action) → Keeps c.db (perform e u a c).1.db
  unfolding perform
  perform-Keeps u a = elim (Bool-cases (is_unmask a)) [
    | inl q ↦ rw (q, perform) (handle-Keeps u a)
    | inr q ↦ elim (Bool-cases (can_mutate u.role)) [
      | inl m ↦ rw (q, m, perform) (handle-Keeps u a)
      | inr m ↦ rw (q, m, perform) (Keeps-same _ _ _ _ (refl, refl))
    ]
  ]

  -- A request of the console keeps the invariant, and each message follows the diagram.
  pub request-Keeps : (cookie : Option Text) (a : Action) → Keeps c.db (request e cookie a c).1.db
  unfolding request as_user
  request-Keeps cookie a = elim (Option-cases (require_session e cookie c.db)) [
    | inl q ↦ rw (q, request) (Keeps-same _ _ _ _ (refl, refl))
    | inr (u, q) ↦ rw (q, request) (perform-Keeps u a)
  ]
