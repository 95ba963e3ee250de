-- ===== src/Admin/Access.antt =====
-- server/internal/admin/handlers.go: enrollment tokens and clients.
pub mod Audited
pub mod Messages
use wsms_gateway.Base.{
  ℕ, suc, ◌+◌, Bool, true, false, not, ◌&&◌, Option, none, some, List, [], ◌∷◌, ◌++◌, ◌==◌, any,
  first, update_where, delete_where, if◌then◌else◌,
}
use wsms_gateway.Models.Records.{Text, is_empty, AuditAction, Client, ApiKey, EnrollmentToken, Db}
use wsms_gateway.Text.{codes, text_eq, trim_space}
use wsms_gateway.Admin.Console.{FlashKind, Console, ConsoleEnv, User, Answer, audit}
use wsms_gateway.Admin.Flash.{flash}
use wsms_gateway.Admin.Fleet.{unlink_device}

-- `issueEnrollment`: `newEnrollToken` draws the first token, `putFlash` the second.
unfoldable pub issue_enrollment : ConsoleEnv → User → Text → Console → Answer × Console
issue_enrollment e u label c =
    let et : EnrollmentToken = record {
      id = e.new_id 0;
      token_hash = e.digest (e.token 0);
      label = label;
      used = false;
      device_id = none;
      expires_at = e.now + 86400000;
      used_at = none;
      updated_at = e.now;
    } in
    if e.stores 0
    then flash e (e.token 1) FlashKind.enroll label (e.token 0) (record c {
      db =
          audit e.now u (AuditAction.token_create label) et.id
            (record c.db { tokens = c.db.tokens ++ et ∷ [] });
    })
    else (Answer.failed, c)

abbrev find_token : ℕ → Db → Option EnrollmentToken
find_token id db = first (λ (t : EnrollmentToken). t.id == id) db.tokens

drop_token : ConsoleEnv → User → EnrollmentToken → Option ℕ → Console → Console
drop_token e u et none c = record c {
  db = record c.db { tokens = delete_where (λ (t : EnrollmentToken). t.id == et.id) c.db.tokens };
}
drop_token e u et (some device) c =
    let gone = unlink_device device c in
    record gone { db = audit e.now u AuditAction.device_unlink device gone.db }

-- `deleteEnrollment`.
unfoldable pub delete_enrollment : ConsoleEnv → User → ℕ → Console → Answer × Console
unfolding drop_token
delete_enrollment e u id c = elim (find_token id c.db) [
  | none ↦ (Answer.not_found, c)
  | some et ↦
      let gone = drop_token e u et et.device_id c in
      (
        Answer.redirect,
        record gone { db = audit e.now u (AuditAction.token_delete et.label) et.id gone.db },
      )
]

abbrev pub find_client : ℕ → Db → Option Client
find_client id db = first (λ (c : Client). c.id == id && not c.deleted) db.clients

abbrev pub on_client : ℕ → (Client → Client) → Db → Db
on_client id f db = record db {
  clients = update_where (λ c. c.id == id && not c.deleted) f db.clients;
}

abbrev pub on_key : (ApiKey → Bool) → (ApiKey → ApiKey) → Db → Db
on_key p f db = record db { keys = update_where (λ k. p k && not k.deleted) f db.keys }

unfoldable pub create_client : ConsoleEnv → User → Text → Console → Answer × Console
create_client e u text c =
    let name = trim_space text in
    let cl : Client = record {
      id = e.new_id 0;
      name = name;
      active = true;
      webhook_secret_enc = [];
      updated_at = e.now;
      deleted = false;
    } in
    if is_empty name
    then (Answer.rejected, c)
    else if e.stores 0
    then (
      Answer.redirect,
      record c {
        db =
            audit e.now u (AuditAction.client_create name) cl.id
              (record c.db { clients = c.db.clients ++ cl ∷ [] });
      },
    )
    else (Answer.rejected, c)

abbrev toggled : Bool → Text → AuditAction
toggled true name = AuditAction.client_enable name
toggled false name = AuditAction.client_disable name

unfoldable pub toggle_client : ConsoleEnv → User → ℕ → Console → Answer × Console
toggle_client e u id c = elim (find_client id c.db) [
  | none ↦ (Answer.not_found, c)
  | some cl ↦ (
    Answer.redirect,
    record c {
      db =
          audit e.now u (toggled (not cl.active) cl.name) cl.id
            (on_client cl.id (λ x. record x { active = not cl.active; updated_at = e.now }) c.db);
    },
  )
]

unfoldable pub delete_client : ConsoleEnv → User → ℕ → Console → Answer × Console
delete_client e u id c = (
  Answer.redirect,
  record c {
    db = audit e.now u AuditAction.client_delete id (
        on_client id (λ x. record x { deleted = true })
          (on_key (λ k. k.client_id == id) (λ k. record k { deleted = true }) c.db));
  },
)
