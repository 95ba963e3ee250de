-- ===== src/Admin/Routing.antt =====
-- The off-net policy: saveRouting and validOperator of server/internal/admin/actions.go, SetFallback,
-- loadFallback and New of server/internal/router/router.go, and ensureSettings of
-- server/internal/store/store.go.
pub mod Audited
pub mod Messages
pub mod Persisted
use wsms_gateway.Base.{
  ℕ, Bool, true, Option, none, some, List, [], ◌∷◌, ◌++◌, ◌==◌, any, first, update_where,
  if◌then◌else◌,
}
use wsms_gateway.Models.Enums.{Operator, FallbackMode}
use wsms_gateway.Models.Records.{Text, AuditAction, AppSettings, Db}
use wsms_gateway.Text.{codes, text_eq, trim_space}
use wsms_gateway.Router.Engine.{FallbackConfig}
use wsms_gateway.Admin.Console.{Console, ConsoleEnv, User, Answer, audit}

abbrev pub settings_id : ℕ
settings_id = 1

-- `validOperator`, with the constant of that name.
unfoldable pub valid_operator : Text → Option Operator
valid_operator s =
    if text_eq s (codes "TELKOMSEL")
    then some Operator.telkomsel
    else if text_eq s (codes "INDOSAT")
    then some Operator.indosat
    else if text_eq s (codes "XL")
    then some Operator.xl
    else if text_eq s (codes "AXIS")
    then some Operator.axis
    else if text_eq s (codes "TRI")
    then some Operator.tri
    else if text_eq s (codes "SMARTFREN")
    then some Operator.smartfren
    else none

-- The `switch` on the mode; none is a redirect without a change.
pub chosen : Text → Text → Option FallbackConfig
unfolding valid_operator
chosen mode op =
    if text_eq mode (codes "LEAST_LOADED")
    then some (record { mode = FallbackMode.least_loaded; op = Operator.unknown })
    else if text_eq mode (codes "RANDOM")
    then some (record { mode = FallbackMode.random; op = Operator.unknown })
    else if text_eq mode (codes "DEFAULT_OP")
    then (elim (valid_operator op) [
      | none ↦ none
      | some o ↦ some (record { mode = FallbackMode.default_op; op = o })
    ])
    else none

-- The update, whose error is ignored.
pub persist : ConsoleEnv → FallbackConfig → Db → Db
persist e fb db = record db {
  settings =
      if e.stores 0
      then update_where (λ (s : AppSettings). s.id == settings_id)
          (λ s. record s { fallback_mode = fb.mode; fallback_operator = fb.op; updated_at = e.now })
          db.settings
      else db.settings;
}

apply : ConsoleEnv → User → Option FallbackConfig → Console → Answer × Console
unfolding persist
apply e u none c = (Answer.redirect, c)
apply e u (some fb) c = (
  (if e.htmx then Answer.rendered else Answer.redirect),
  record c {
    db = audit e.now u (AuditAction.routing_fallback fb.mode fb.op) settings_id (persist e fb c.db);
    fallback = fb;
  },
)

-- `saveRouting`, with the texts of the form.
unfoldable pub save_routing : ConsoleEnv → User → Text → Text → Console → Answer × Console
unfolding chosen apply
save_routing e u mode op c = apply e u (chosen (trim_space mode) (trim_space op)) c

-- `ensureSettings`.
unfoldable pub ensure_settings : ℕ → Db → Db
ensure_settings now db =
    if any (λ (s : AppSettings). s.id == settings_id) db.settings then db else record db {
      settings =
          db.settings
          ++ record {
            id = settings_id;
            fallback_mode = FallbackMode.least_loaded;
            fallback_operator = Operator.unknown;
            updated_at = now;
          }
            ∷ [];
    }

abbrev pub policy_of : Option AppSettings → FallbackConfig
policy_of none = record { mode = FallbackMode.least_loaded; op = Operator.unknown }
policy_of (some s) = record { mode = s.fallback_mode; op = s.fallback_operator }

-- What `New` leaves in the engine: the defaults, then `loadFallback`.
unfoldable pub load_fallback : Db → FallbackConfig
load_fallback db = policy_of (first (λ (s : AppSettings). s.id == settings_id) db.settings)
