-- ===== src/Admin/Tests.antt =====
-- The theorems about the console, at concrete requests.
mod Signing
mod Pages
use wsms_gateway.Base.{
  ℕ, ◌≡◌, refl, ◌⊎◌, ◌+◌, Bool, true, false, none, some, List, [], ◌∷◌, arith, ◌≢◌,
}
use wsms_gateway.Models.Enums.{Role, FallbackMode, Operator}
use wsms_gateway.Models.Records.{Text, Message, Client, AdminUser, AdminSession, AppSettings, Db}
use wsms_gateway.Text.{codes, text_eq, cut}
use wsms_gateway.Text.Laws.{text_eq_refl}
use wsms_gateway.Ws.Hub.{lookup_conn}
use wsms_gateway.Router.Engine.{World, FallbackConfig, route}
use wsms_gateway.Api.Auth.{Crypto, Request, AuthResult, client_auth, has_scope}
use wsms_gateway.Api.Device.{device_auth}
use wsms_gateway.Admin.Console.{FlashKind, FlashItem, Console, ConsoleEnv, User, Answer}
use wsms_gateway.Admin.Trail.{Trace}
use wsms_gateway.Admin.Flash.{put_flash, pop_flash}
use wsms_gateway.Admin.Flash.Once.{pop_flash-put_flash}
use wsms_gateway.Admin.Session.{do_login}
use wsms_gateway.Admin.Session.Lifecycle.{SignedIn, do_login-SignedIn}
use wsms_gateway.Admin.Fleet.{unlink_device}
use wsms_gateway.Admin.Fleet.Unlink.{NotTo, unlink_device_lem}
use wsms_gateway.Admin.Access.{delete_client, toggle_client}
use wsms_gateway.Admin.Keys.{create_key, revoke_key}
use wsms_gateway.Admin.Keys.Accepted.{create_key-client_auth}
use wsms_gateway.Admin.Routing.{save_routing, load_fallback}
use wsms_gateway.Admin.Routing.Persisted.{IsPersisted, save_routing-IsPersisted}
use wsms_gateway.Admin.Actions.{Action, perform, request}
use wsms_gateway.Admin.Actions.Audited.{perform-Trace}
use wsms_gateway.Admin.Actions.Roles.{Permitted, request-Permitted}
use wsms_gateway.Samples.{fleet_db, phone_hub, spread}

abbrev desk : ConsoleEnv
desk = record {
  now = 100000;
  new_id = λ n. n + 500;
  token = λ n. (n + b'a') ∷ b'x' ∷ [];
  hash = λ s. some s;
  digest = λ s. s;
  seal = λ s. some s;
  stores = λ n. true;
  pick = true;
  prefixes = none;
  default_ttl_ms = 600000;
  parse_duration = λ s. none;
  htmx = false;
}

abbrev boss : AdminUser
boss = record {
  id = 1;
  username = codes "admin";
  password_hash = codes "pw";
  role = Role.owner;
  active = true;
  last_login_at = none;
  updated_at = 0;
  deleted = false;
}

abbrev visit : AdminSession
visit = record {
  token_hash = codes "t";
  user_id = 1;
  username = codes "admin";
  role = Role.owner;
  expires_at = 900000;
  created_at = 0;
}

abbrev shop : Client
shop = record {
  id = 7;
  name = codes "shop";
  active = true;
  webhook_secret_enc = [];
  updated_at = 0;
  deleted = false;
}

abbrev off_net : AppSettings
off_net = record {
  id = 1;
  fallback_mode = FallbackMode.least_loaded;
  fallback_operator = Operator.unknown;
  updated_at = 0;
}

abbrev console : Console
console = record {
  db = record fleet_db {
    clients = shop ∷ [];
    users = boss ∷ [];
    sessions = visit ∷ [];
    settings = off_net ∷ [];
  };
  hub = phone_hub;
  fallback = spread;
  flashes = [];
}

abbrev root : User
root = record { id = 1; username = codes "admin"; role = Role.owner }

request-Permitted_example :
    ((request desk (some (codes "t")) (Action.sim_disable 10) console).1 ≡ console)
    ⊎ Permitted desk (some (codes "t")) (Action.sim_disable 10) console.db
request-Permitted_example =
    request-Permitted desk (some (codes "t")) (Action.sim_disable 10) console

perform-Trace_example :
    Trace desk root false console (perform desk root (Action.device_delete 1) console).1
perform-Trace_example = perform-Trace desk root console (Action.device_delete 1)

abbrev signed_in : Db
signed_in = (do_login desk text_eq (codes "admin") (codes "pw") console.db).1

enters :
    do_login desk text_eq (codes "admin") (codes "pw") console.db ≡ (some (desk.token 0), signed_in)
unfolding do_login
enters = refl

do_login-SignedIn_example :
    SignedIn desk text_eq (codes "admin") (codes "pw") console.db signed_in (desk.token 0)
do_login-SignedIn_example =
    do_login-SignedIn desk text_eq (codes "admin") (codes "pw") console.db signed_in (desk.token 0)
      refl refl enters

unlink_device_lem_example :
    (lookup_conn (unlink_device 1 console).hub 1 ≡ none)
    × ((x : Crypto) (read_id : Text → ℕ) (header : Text)
        → device_auth x read_id header (unlink_device 1 console).db ≢ some 1)
    × ((w : World) (fb : FallbackConfig) (msg : Message)
        → NotTo 1 (route w fb msg (unlink_device 1 console).db).0)
unlink_device_lem_example = unlink_device_lem 1 console

in_step : IsPersisted console
in_step = record { stored = refl; loaded = unfold load_fallback in refl }

save_routing-IsPersisted_example :
    IsPersisted (save_routing desk root (codes "DEFAULT_OP") (codes "XL") console).1
save_routing-IsPersisted_example =
    save_routing-IsPersisted desk root (codes "DEFAULT_OP") (codes "XL") console refl in_step

abbrev plain : Crypto
plain = record { verify = text_eq; open_secret = λ s. some s; hmac = λ key signed. key }

abbrev boxes : List (Bool × Text)
boxes = (true, codes "send") ∷ (false, codes "read") ∷ []

abbrev minted : Console
minted = (create_key desk root 7 boxes console).1

abbrev shown : FlashItem
shown = record {
  id = desk.token 7;
  kind = FlashKind.apikey;
  label = codes "shop · wsms_ax";
  secret = codes "wsms_ax.gx";
  expires = 280000;
}

abbrev call : Request
call = record {
  authorization = codes "Bearer wsms_ax.gx";
  signature = [];
  timestamp = [];
  body = [];
}

reveals : (create_key desk root 7 boxes console).0 ≡ Answer.revealed (desk.token 7)
unfolding create_key
reveals = refl

pops : (pop_flash desk.now (desk.token 7) minted.flashes).0 ≡ some shown
unfolding create_key pop_flash put_flash
pops = refl

grants : has_scope (codes "send") (codes "send") ≡ true
unfolding has_scope
grants = refl

create_key-client_auth_example :
    ((client_auth plain 1764000000 (codes "send") call minted.db).0 ≡ AuthResult.client 7)
    × ((e' : ConsoleEnv) (u' : User)
        → (client_auth plain 1764000000 (codes "send") call (revoke_key e' u' 500 minted).1.db).0
          ≡ AuthResult.denied 401)
    × ((e' : ConsoleEnv) (u' : User)
        → (client_auth plain 1764000000 (codes "send") call (delete_client e' u' 7 minted).1.db).0
          ≡ AuthResult.denied 401)
    × ((e' : ConsoleEnv) (u' : User)
        → (client_auth plain 1764000000 (codes "send") call (toggle_client e' u' 7 minted).1.db).0
          ≡ AuthResult.denied 401)
create_key-client_auth_example =
    create_key-client_auth desk root 7 boxes console (desk.token 7) plain 1764000000 (codes "send")
      call shop shown verifies no_dots (λ n. refl) reveals pops refl refl refl grants
  where
    verifies : (s h : Text) → desk.hash s ≡ some h → plain.verify s h ≡ true
    verifies s h k = ground (arith, text_eq_refl s)

    no_dots : (n : ℕ) → cut b'.' (desk.token n) ≡ none
    no_dots n = ground arith
