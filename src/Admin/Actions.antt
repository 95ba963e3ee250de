-- ===== src/Admin/Actions.antt =====
-- The requests of a signed-in user that change something: the routes of Mount in
-- server/internal/admin/admin.go, each behind the test of the role that its handler makes.
pub mod Audited
pub mod Roles
pub mod Messages
use wsms_gateway.Base.{ℕ, Bool, true, false, Option, none, some, List, if◌then◌else◌}
use wsms_gateway.Models.Records.{Text}
use wsms_gateway.Admin.Console.{Console, ConsoleEnv, User, Answer, can_mutate}
use wsms_gateway.Admin.Session.{require_session}
use wsms_gateway.Admin.Fleet
use wsms_gateway.Admin.Routing
use wsms_gateway.Admin.Traffic
use wsms_gateway.Admin.Traffic.{Compose}
use wsms_gateway.Admin.Access
use wsms_gateway.Admin.Keys

pub data Action : Type 0 where
  sim_disable sim_enable sim_cooldown : (id : ℕ) → Action
  sim_quota : (id : ℕ) → Text → Action
  device_rescan device_delete : (id : ℕ) → Action
  device_rename : (id : ℕ) → Text → Action
  save_routing : (mode op : Text) → Action
  message_cancel : (id : ℕ) → Action
  unmask : (id : ℕ) → (reason : Text) → Action
  send_compose : Compose → Action
  issue_enrollment : (label : Text) → Action
  delete_enrollment : (id : ℕ) → Action
  create_client : (name : Text) → Action
  toggle_client delete_client : (id : ℕ) → Action
  create_key : (id : ℕ) → (boxes : List (Bool × Text)) → Action
  revoke_key rotate_webhook_secret enable_key_signing : (id : ℕ) → Action

-- The handler behind the test.
pub handle : ConsoleEnv → User → Action → Console → Answer × Console
handle e u (Action.sim_disable id) c = Fleet.sim_disable e u id c
handle e u (Action.sim_enable id) c = Fleet.sim_enable e u id c
handle e u (Action.sim_cooldown id) c = Fleet.sim_cooldown e u id c
handle e u (Action.sim_quota id text) c = Fleet.sim_quota e u id text c
handle e u (Action.device_rescan id) c = Fleet.device_rescan e u id c
handle e u (Action.device_delete id) c = Fleet.device_delete e u id c
handle e u (Action.device_rename id text) c = Fleet.device_rename e u id text c
handle e u (Action.save_routing mode op) c = Routing.save_routing e u mode op c
handle e u (Action.message_cancel id) c = Traffic.message_cancel e u id c
handle e u (Action.unmask id reason) c = Traffic.unmask_msisdn e u id reason c
handle e u (Action.send_compose form) c = Traffic.send_compose e u form c
handle e u (Action.issue_enrollment label) c = Access.issue_enrollment e u label c
handle e u (Action.delete_enrollment id) c = Access.delete_enrollment e u id c
handle e u (Action.create_client name) c = Access.create_client e u name c
handle e u (Action.toggle_client id) c = Access.toggle_client e u id c
handle e u (Action.delete_client id) c = Access.delete_client e u id c
handle e u (Action.create_key id boxes) c = Keys.create_key e u id boxes c
handle e u (Action.revoke_key id) c = Keys.revoke_key e u id c
handle e u (Action.rotate_webhook_secret id) c = Keys.rotate_webhook_secret e u id c
handle e u (Action.enable_key_signing id) c = Keys.enable_key_signing e u id c

-- `unmaskMSISDN` makes a test of its own, on whether the role may see numbers.
abbrev pub is_unmask : Action → Bool
is_unmask (Action.unmask id reason) = true
is_unmask _ = false

unfoldable pub perform : ConsoleEnv → User → Action → Console → Answer × Console
unfolding handle
perform e u a c =
    if is_unmask a
    then handle e u a c
    else if can_mutate u.role
    then handle e u a c
    else (Answer.forbidden, c)

-- For the user of the session; none is sent to the login page.
as_user : ConsoleEnv → Option User → Action → Console → Answer × Console
as_user e none a c = ((if e.htmx then Answer.unauthorized else Answer.redirect), c)
as_user e (some u) a c = perform e u a c

-- A request with the token of its cookie.
unfoldable pub request : ConsoleEnv → Option Text → Action → Console → Answer × Console
unfolding as_user
request e cookie a c = as_user e (require_session e cookie c.db) a c
