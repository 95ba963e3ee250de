-- ===== src/Admin/Console.antt =====
-- server/internal/admin/admin.go and actions.go: what the console works on, what a request of it
-- meets, its roles and its audit trail.
use wsms_gateway.Base.{ℕ, Bool, true, false, Option, List, [], ◌∷◌, ◌++◌}
use wsms_gateway.Models.Enums.{Operator, Role}
use wsms_gateway.Models.Records.{Text, Actor, AuditAction, AdminAudit, Db}
use wsms_gateway.Ws.Hub.{Hub}
use wsms_gateway.Router.Engine.{FallbackConfig}

-- A secret that is shown once, under the id that the redirect carries.
pub data FlashKind : Type 0 where
  apikey webhook signing enroll : FlashKind

pub record FlashItem : Type 0 where
  pub id : Text
  pub kind : FlashKind
  pub label : Text
  pub secret : Text
  pub expires : ℕ

-- The tables, the hub, the engine's fallback policy, and the flashes in memory.
pub record Console : Type 0 where
  pub db : Db
  pub hub : Hub
  pub fallback : FallbackConfig
  pub flashes : List FlashItem

-- What one request meets: the clock, new ids, random tokens (`token n` is the n-th that the request
-- draws), the hashes, the seal, whether the database stores the n-th new row, the choice of a `select`, and
-- for `compose` the prefix table, the default TTL and `time.ParseDuration` of a number of seconds
-- (none unless positive, else milliseconds),
-- and whether the request comes from a script of the page (`HX-Request`).
pub record ConsoleEnv : Type 0 where
  pub now : ℕ
  pub new_id : ℕ → ℕ
  pub token : ℕ → Text
  pub hash : Text → Option Text
  pub digest : Text → Text
  pub seal : Text → Option Text
  pub stores : ℕ → Bool
  pub pick : Bool
  pub prefixes : Option (List (Text × Operator))
  pub default_ttl_ms : ℕ
  pub parse_duration : Text → Option ℕ
  pub htmx : Bool

-- The user that `requireSession` found.
pub record User : Type 0 where
  pub id : ℕ
  pub username : Text
  pub role : Role

-- The answers: the error codes 401, 403, 404 and 500, a redirect, one that carries an error, one that
-- carries the id of a flash, one after a message was sent, and a fragment that is rendered.
pub data Answer : Type 0 where
  unauthorized forbidden not_found failed redirect rejected rendered : Answer
  revealed : (id : Text) → Answer
  sent : Operator → Answer
  number : Text → Answer

-- `canMutate`, which some handlers write out.
abbrev pub can_mutate : Role → Bool
can_mutate Role.owner = true
can_mutate Role.operator = true
can_mutate _ = false

abbrev pub can_unmask : Role → Bool
can_unmask Role.readonly = false
can_unmask _ = true

abbrev pub actor_of : User → Actor
actor_of u = Actor.user u.username u.role

abbrev pub audit_row : ℕ → User → AuditAction → ℕ → AdminAudit
audit_row now u action target = record {
  actor = actor_of u;
  action = action;
  target_id = target;
  created_at = now;
}

abbrev pub audit : ℕ → User → AuditAction → ℕ → Db → Db
audit now u action target db = record db {
  audits = db.audits ++ audit_row now u action target ∷ [];
}
