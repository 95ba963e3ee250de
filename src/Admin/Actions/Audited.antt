-- ===== src/Admin/Actions/Audited.antt =====
-- The audit trail of the console over all its requests.
use wsms_gateway.Base.{refl, Bool, true, false, inl, inr, Bool-cases}
use wsms_gateway.Admin.Console.{Console, ConsoleEnv, User, can_mutate}
use wsms_gateway.Admin.Trail.{Trace, untraced}
use wsms_gateway.Admin.Fleet.Audited.{
  sim_disable-Trace, sim_enable-Trace, sim_cooldown-Trace, sim_quota-Trace, device_rescan-Trace,
  device_delete-Trace, device_rename-Trace,
}
use wsms_gateway.Admin.Routing.Audited.{save_routing-Trace}
use wsms_gateway.Admin.Traffic.Audited.{
  message_cancel-Trace, unmask_msisdn-Trace, send_compose-Trace,
}
use wsms_gateway.Admin.Access.Audited.{
  issue_enrollment-Trace, delete_enrollment-Trace, create_client-Trace, toggle_client-Trace,
  delete_client-Trace,
}
use wsms_gateway.Admin.Keys.Audited.{
  create_key-Trace, revoke_key-Trace, rotate_webhook_secret-Trace, enable_key_signing-Trace,
}
use wsms_gateway.Admin.Actions.{Action, handle, is_unmask, perform}

abbrev pub is_compose : Action → Bool
is_compose (Action.send_compose form) = true
is_compose _ = false

module _ (e : ConsoleEnv) (u : User) (c : Console) where
  handle-Trace : (a : Action) → Trace e u (is_compose a) c (handle e u a c).1
  unfolding handle
  handle-Trace (Action.sim_disable id) = sim_disable-Trace e u false c id
  handle-Trace (Action.sim_enable id) = sim_enable-Trace e u false c id
  handle-Trace (Action.sim_cooldown id) = sim_cooldown-Trace e u false c id
  handle-Trace (Action.sim_quota id text) = sim_quota-Trace e u false c id text
  handle-Trace (Action.device_rescan id) = device_rescan-Trace e u false c id
  handle-Trace (Action.device_delete id) = device_delete-Trace e u false c id
  handle-Trace (Action.device_rename id text) = device_rename-Trace e u false c id text
  handle-Trace (Action.save_routing mode op) = save_routing-Trace e u false c mode op
  handle-Trace (Action.message_cancel id) = message_cancel-Trace e u false c id
  handle-Trace (Action.unmask id reason) = unmask_msisdn-Trace e u false c id reason
  handle-Trace (Action.send_compose form) = send_compose-Trace e u true c form refl
  handle-Trace (Action.issue_enrollment label) = issue_enrollment-Trace e u false c label
  handle-Trace (Action.delete_enrollment id) = delete_enrollment-Trace e u false c id
  handle-Trace (Action.create_client name) = create_client-Trace e u false c name
  handle-Trace (Action.toggle_client id) = toggle_client-Trace e u false c id
  handle-Trace (Action.delete_client id) = delete_client-Trace e u false c id
  handle-Trace (Action.create_key id boxes) = create_key-Trace e u false c id boxes
  handle-Trace (Action.revoke_key id) = revoke_key-Trace e u false c id
  handle-Trace (Action.rotate_webhook_secret id) = rotate_webhook_secret-Trace e u false c id
  handle-Trace (Action.enable_key_signing id) = enable_key_signing-Trace e u false c id

  -- Each request of the console only appends to the audit trail, rows that name its user and its
  -- time; and a request that adds no row changes nothing, but for the row of the console's own
  -- client, which `sendCompose` may have made.
  pub perform-Trace : (a : Action) → Trace e u (is_compose a) c (perform e u a c).1
  unfolding perform
  perform-Trace a = elim (Bool-cases (is_unmask a)) [
    | inl q ↦ rw (q, perform) (handle-Trace a)
    | inr q ↦ elim (Bool-cases (can_mutate u.role)) [
      | inl m ↦ rw (q, m, perform) (handle-Trace a)
      | inr m ↦ rw (q, m, perform) (untraced e u (is_compose a) c)
    ]
  ]
