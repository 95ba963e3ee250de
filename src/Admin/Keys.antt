-- ===== src/Admin/Keys.antt =====
-- server/internal/admin/handlers.go: API keys, their signing secrets, and the webhook secrets.
pub mod Audited
pub mod Messages
pub mod Mint
pub mod Accepted
pub mod Signing
pub mod Shared
pub mod Callbacks
use wsms_gateway.Base.{
  ℕ, zero, suc, ◌+◌, Bool, true, false, not, ◌&&◌, Option, none, some, List, [], ◌∷◌, ◌++◌, ◌==◌,
  any, first, if◌then◌else◌,
}
use wsms_gateway.Models.Records.{Text, is_empty, AuditAction, Client, ApiKey, Db}
use wsms_gateway.Text.{codes, text_eq}
use wsms_gateway.Admin.Console.{FlashKind, Console, ConsoleEnv, User, Answer, audit}
use wsms_gateway.Admin.Flash.{flash}
use wsms_gateway.Admin.Access.{find_client, on_client, on_key}

-- The scopes that are ticked, in the order of the list, joined by commas.
abbrev join : Text → Text → Text
join s [] = s
join s (c ∷ t) = s ++ b',' ∷ c ∷ t

abbrev pub ticked : List (Bool × Text) → Text
ticked [] = []
ticked ((on, s) ∷ rest) = let others = ticked rest in if on then join s others else others

abbrev pub prefix_taken : Db → Text → Bool
prefix_taken db p = any (λ (k : ApiKey). text_eq k.prefix p && not k.deleted) db.keys

-- The loop that draws a prefix: `tries` rounds, of which the first draws token `n`.
pub allocate : (ℕ → Text) → Db → (tries n : ℕ) → Option Text
allocate draw db zero n = none
allocate draw db (suc tries) n =
    let rest = allocate draw db tries (suc n) in
    if prefix_taken db (draw n) then rest else some (draw n)

abbrev pub token_of : Text → Text → Text
token_of prefix sec = codes "wsms_" ++ (prefix ++ b'.' ∷ sec)

pub new_key : ConsoleEnv → ℕ → Text → Text → Text → ApiKey
new_key e client prefix hash scopes = record {
  id = e.new_id 0;
  client_id = client;
  prefix = prefix;
  hash = hash;
  scopes = scopes;
  signing_secret_enc = [];
  active = true;
  last_used_at = none;
  updated_at = e.now;
  deleted = false;
}

-- With a prefix and a hash of the secret, which is token 6; the flash id is token 7.
pub store_key :
    ConsoleEnv → User → Client → ℕ → Text → Text → Option Text → Console → Answer × Console
unfolding new_key
store_key e u cl client scopes prefix none c = (Answer.rejected, c)
store_key e u cl client scopes prefix (some hash) c =
    if e.stores 0
    then flash e (e.token 7) FlashKind.apikey (cl.name ++ (codes " · wsms_" ++ prefix))
        (token_of prefix (e.token 6))
        (record c {
          db =
              audit e.now u (AuditAction.key_create cl.name) (e.new_id 0)
                (record c.db { keys = c.db.keys ++ new_key e client prefix hash scopes ∷ [] });
        })
    else (Answer.rejected, c)

pub key_for : ConsoleEnv → User → Client → ℕ → Text → Option Text → Console → Answer × Console
unfolding store_key
key_for e u cl client scopes none c = (Answer.rejected, c)
key_for e u cl client scopes (some []) c = (Answer.rejected, c)
key_for e u cl client scopes (some (p ∷ prefix)) c =
    store_key e u cl client scopes (p ∷ prefix) (e.hash (e.token 6)) c

-- `createKey`.
unfoldable pub create_key : ConsoleEnv → User → ℕ → List (Bool × Text) → Console → Answer × Console
unfolding key_for allocate
create_key e u id boxes c = elim (find_client id c.db) [
  | none ↦ (Answer.not_found, c)
  | some cl ↦
      if is_empty (ticked boxes)
      then (Answer.rejected, c)
      else key_for e u cl id (ticked boxes) (allocate e.token c.db 6 0) c
]

unfoldable pub revoke_key : ConsoleEnv → User → ℕ → Console → Answer × Console
revoke_key e u id c = (
  Answer.redirect,
  record c {
    db =
        audit e.now u AuditAction.key_revoke id
          (on_key (λ k. k.id == id) (λ k. record k { deleted = true }) c.db);
  },
)

seal_webhook : ConsoleEnv → User → Client → Option Text → Console → Answer × Console
seal_webhook e u cl none c = (Answer.failed, c)
seal_webhook e u cl (some enc) c =
    if e.stores 0
    then flash e (e.token 1) FlashKind.webhook cl.name (e.token 0) (record c {
      db =
          audit e.now u (AuditAction.webhook_rotate cl.name) cl.id
            (on_client cl.id (λ x. record x { webhook_secret_enc = enc; updated_at = e.now }) c.db);
    })
    else (Answer.failed, c)

unfoldable pub rotate_webhook_secret : ConsoleEnv → User → ℕ → Console → Answer × Console
unfolding seal_webhook
rotate_webhook_secret e u id c = elim (find_client id c.db) [
  | none ↦ (Answer.not_found, c)
  | some cl ↦ seal_webhook e u cl (e.seal (e.token 0)) c
]

seal_signing : ConsoleEnv → User → ApiKey → Option Text → Console → Answer × Console
seal_signing e u key none c = (Answer.failed, c)
seal_signing e u key (some enc) c =
    let label = codes "wsms_" ++ key.prefix in
    if e.stores 0
    then flash e (e.token 1) FlashKind.signing label (e.token 0) (record c {
      db = audit e.now u (AuditAction.key_signing label) key.id (
          on_key (λ k. k.id == key.id)
            (λ k. record k { signing_secret_enc = enc; updated_at = e.now }) c.db);
    })
    else (Answer.failed, c)

unfoldable pub enable_key_signing : ConsoleEnv → User → ℕ → Console → Answer × Console
unfolding seal_signing
enable_key_signing e u id c = elim (first (λ (k : ApiKey). k.id == id && not k.deleted) c.db.keys) [
  | none ↦ (Answer.not_found, c)
  | some key ↦ seal_signing e u key (e.seal (e.token 0)) c
]
