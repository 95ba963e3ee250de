-- ===== src/Admin/Routing/Persisted.antt =====
-- The policy in the database and the one in the engine (saveRouting of server/internal/admin/actions.go,
-- New and loadFallback of server/internal/router/router.go, ensureSettings of
-- server/internal/store/store.go).
use mathlib.Core.Bool.{false≢true}
use wsms_gateway.Base.{
  ℕ, ◌≡◌, refl, ◌∙◌, Bool, true, Option, none, some, List, [], ◌∷◌, ◌==◌, any, first, update_where,
  Bool-cases, inl, inr, arith, any-append,
}
use wsms_gateway.Models.Records.{Text, AppSettings, Db}
use wsms_gateway.Router.Engine.{FallbackConfig}
use wsms_gateway.Admin.Console.{Console, ConsoleEnv, User}
use wsms_gateway.Admin.Routing.{
  settings_id, policy_of, persist, apply, save_routing, ensure_settings, load_fallback,
}

-- There is a row of settings, and a server that starts now would load the policy in use.
pub record IsPersisted (c : Console) : Type 0 where
  pub stored : any (λ (s : AppSettings). s.id == settings_id) c.db.settings ≡ true
  pub loaded : load_fallback c.db ≡ c.fallback

abbrev pub is_row : AppSettings → Bool
is_row s = s.id == settings_id

abbrev with_policy : ConsoleEnv → FallbackConfig → AppSettings → AppSettings
with_policy e fb s = record s {
  fallback_mode = fb.mode;
  fallback_operator = fb.op;
  updated_at = e.now;
}

any_updated :
    (e : ConsoleEnv) (fb : FallbackConfig) (xs : List AppSettings)
    → any is_row (update_where is_row (with_policy e fb) xs) ≡ any is_row xs
any_updated e fb [] = refl
any_updated e fb (x ∷ xs) = ground (arith, any_updated e fb xs)

first_updated :
    (e : ConsoleEnv) (fb : FallbackConfig) (xs : List AppSettings)
    → any is_row xs ≡ true
    → policy_of (first is_row (update_where is_row (with_policy e fb) xs)) ≡ fb
first_updated e fb [] h = absurd (false≢true h)
first_updated e fb (x ∷ xs) h = ground (arith, first_updated e fb xs)

apply-IsPersisted :
    (e : ConsoleEnv) (u : User) (fb : Option FallbackConfig) (c : Console)
    → e.stores 0 ≡ true
    → IsPersisted c
    → IsPersisted (apply e u fb c).1
unfolding apply load_fallback persist
apply-IsPersisted e u none c good v = v
apply-IsPersisted e u (some fb) c good v = rw good (record {
  stored = any_updated e fb c.db.settings ∙ v.stored;
  loaded = first_updated e fb c.db.settings v.stored;
})

-- A change of the off-net policy in the console, accepted or refused, whose update can be stored,
-- leaves the database and the engine with one policy, if it was so before: a server that restarts
-- has the policy of the one that was stopped.
pub save_routing-IsPersisted :
    (e : ConsoleEnv) (u : User) (mode op : Text) (c : Console)
    → e.stores 0 ≡ true
    → IsPersisted c
    → IsPersisted (save_routing e u mode op c).1
unfolding save_routing
save_routing-IsPersisted e u mode op c good v = apply-IsPersisted e u _ c good v

pub any_ensured : (now : ℕ) (db : Db) → any is_row (ensure_settings now db).settings ≡ true
unfolding ensure_settings
any_ensured now db = elim (Bool-cases (any is_row db.settings)) [
  | inl t ↦ rw (t, ensure_settings) t
  | inr f ↦ rw (f, ensure_settings) (any-append is_row db.settings _ ∙ rw f)
]

ensured : (now : ℕ) (db : Db) → any is_row db.settings ≡ true → ensure_settings now db ≡ db
unfolding ensure_settings
ensured now db t = rw (t, ensure_settings)

-- The start of a server establishes this, and a second start changes nothing in the database.
pub ensure_settings-IsPersisted :
    (now later : ℕ) (c : Console)
    → IsPersisted (record c {
      db = ensure_settings now c.db;
      fallback = load_fallback (ensure_settings now c.db);
    })
      × (ensure_settings later (ensure_settings now c.db) ≡ ensure_settings now c.db)
ensure_settings-IsPersisted now later c = (
  record { stored = any_ensured now c.db; loaded = refl },
  ensured later _ (any_ensured now c.db),
)
