-- ===== src/Admin/Session.antt =====
-- server/internal/admin/auth.go, and bootstrapOwner and requireSession of admin.go: the sign-in of
-- the console. A cookie is the token that it holds.
pub mod Lifecycle
use wsms_gateway.Base.{
  ℕ, zero, ◌+◌, Bool, true, false, not, ◌&&◌, Option, none, some, List, [], ◌∷◌, ◌++◌, ltb, ◌==◌,
  any, first, update_where, delete_where, if◌then◌else◌,
}
use wsms_gateway.Models.Enums.{Role}
use wsms_gateway.Models.Records.{Text, AdminUser, AdminSession, Db}
use wsms_gateway.Text.{codes, text_eq}
use wsms_gateway.Admin.Console.{ConsoleEnv, User}

-- Thirty days.
abbrev pub session_ttl : ℕ
session_ttl = 2592000000

abbrev pub user_of : AdminSession → User
user_of s = record { id = s.user_id; username = s.username; role = s.role }

abbrev pub is_session : ConsoleEnv → Text → AdminSession → Bool
is_session e tok s = text_eq s.token_hash (e.digest tok) && ltb e.now s.expires_at

-- `requireSession`: the user, or none for the redirect to the login page.
unfoldable pub require_session : ConsoleEnv → Option Text → Db → Option User
require_session e none db = none
require_session e (some tok) db = elim (first (is_session e tok) db.sessions) [
  | none ↦ none
  | some s ↦ some (user_of s)
]

abbrev pub may_log_in : Text → AdminUser → Bool
may_log_in username u = text_eq u.username username && (u.active && not u.deleted)

abbrev session_for : ConsoleEnv → AdminUser → AdminSession
session_for e u = record {
  token_hash = e.digest (e.token 0);
  user_id = u.id;
  username = u.username;
  role = u.role;
  expires_at = e.now + session_ttl;
  created_at = e.now;
}

log_in_as : ConsoleEnv → AdminUser → Db → Db
log_in_as e u db = record db {
  sessions = if e.stores 0 then db.sessions ++ session_for e u ∷ [] else db.sessions;
  users =
      update_where (λ x. x.id == u.id && not x.deleted)
        (λ x. record x { last_login_at = some e.now; updated_at = e.now }) db.users;
}

-- `doLogin`: the token of the cookie, or none where the credentials are refused. `verify` is Argon2id.
-- The errors of the two writes are ignored.
unfoldable pub do_login : ConsoleEnv → (Text → Text → Bool) → Text → Text → Db → Option Text × Db
unfolding log_in_as
do_login e verify username password db = elim (first (may_log_in username) db.users) [
  | none ↦ (none, db)
  | some u ↦
      if verify password u.password_hash then (some (e.token 0), log_in_as e u db) else (none, db)
]

unfoldable pub do_logout : ConsoleEnv → Option Text → Db → Db
do_logout e none db = db
do_logout e (some tok) db = record db {
  sessions = delete_where (λ (s : AdminSession). text_eq s.token_hash (e.digest tok)) db.sessions;
}

owner_of : ConsoleEnv → Option Text → AdminUser
owner_of e hash = record {
  id = e.new_id 0;
  username = codes "admin";
  password_hash = elim hash [ none ↦ [] | some h ↦ h ];
  role = Role.owner;
  active = true;
  last_login_at = none;
  updated_at = e.now;
  deleted = false;
}

-- `bootstrapOwner`; the error of the hash is ignored.
unfoldable pub bootstrap_owner : ConsoleEnv → Db → Db
unfolding owner_of
bootstrap_owner e db =
    if any (λ (u : AdminUser). not u.deleted) db.users
    then db
    else if e.stores 0
    then record db { users = db.users ++ owner_of e (e.hash (e.token 0)) ∷ [] }
    else db
