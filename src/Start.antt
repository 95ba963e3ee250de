-- ===== src/Start.antt =====
-- server/cmd/wsmsd/main.go with Open of server/internal/store/store.go: what a start does to the
-- database, and the server that it leaves. The configuration and the push client of fcm.New are arguments.
pub mod Comes
mod Tests
use wsms_gateway.Base.{
  ℕ, Bool, true, false, ◌&&◌, Option, none, some, List, [], ◌∷◌, ◌++◌, if◌then◌else◌,
}
use wsms_gateway.Models.Enums.{Operator}
use wsms_gateway.Models.Records.{Text, Db}
use wsms_gateway.Ws.Hub.{Hub}
use wsms_gateway.Router.Engine.{FallbackConfig}
use wsms_gateway.Store.{
  Boot, Started, bootstrap_client, bootstrap_enrollment, seed_prefixes, load_prefixes,
}
use wsms_gateway.Base.Int.{ℤ}
use wsms_gateway.Retention.{run_start}
use wsms_gateway.Admin.Console.{ConsoleEnv}
use wsms_gateway.Admin.Routing.{ensure_settings, load_fallback}
use wsms_gateway.Admin.Session.{bootstrap_owner}

-- What a start meets: whether the database is reached, migrated and indexed, at which prefixes the
-- seeding fails, whether the settings row can be made and the prefixes be read, the clock, what the
-- three bootstraps take, whether the push client could be made, and how many days messages are kept,
-- with the time so many days ago.
pub record Host : Type 0 where
  pub connects : Bool
  pub migrates : Bool
  pub indexes : Bool
  pub fails : Text → Bool
  pub settles : Bool
  pub answers : Bool
  pub now : ℕ
  pub client : Boot
  pub token : Boot
  pub console : ConsoleEnv
  pub has_waker : Bool
  pub retention_days : ℤ
  pub cutoff : ℕ → ℕ

settle_row : Host → Bool × Db → Bool × Db
settle_row host (false, db) = (false, db)
settle_row host (true, db) =
    if host.settles then (true, ensure_settings host.now db) else (false, db)

-- `Open`, and whether it returns no error; the statements before an error stay.
unfoldable pub open_store : Host → Db → Bool × Db
unfolding settle_row
open_store host db =
    if host.connects && (host.migrates && host.indexes)
    then settle_row host (seed_prefixes host.fails db)
    else (false, db)

-- The server that serves requests, with the tokens that it logged.
pub record Running : Type 0 where
  pub db : Db
  pub hub : Hub
  pub prefixes : List (Text × Operator)
  pub fallback : FallbackConfig
  pub has_waker : Bool
  pub logged : List Text

log_of : Started → List Text
log_of (Started.created t) = t ∷ []
log_of _ = []

-- `New` of the engine, the hub and the console, and the start of the retention; an engine without a
-- table has the default one.
wire : Host → List Text → Option (List (Text × Operator)) → Db → Option Running × Db
unfolding run_start
wire host logged none db = (none, db)
wire host logged (some prefixes) db =
    let ready = run_start host.retention_days host.cutoff (bootstrap_owner host.console db) in
    (
      some (record {
        db = ready;
        hub = record { conns = []; heap = [] };
        prefixes = prefixes;
        fallback = load_fallback db;
        has_waker = host.has_waker;
        logged = logged;
      }),
      ready,
    )

-- What follows on `Open`.
boot : Host → Bool × Db → Option Running × Db
unfolding wire log_of
boot host (false, db) = (none, db)
boot host (true, db) =
    let (client, with_client) = bootstrap_client host.client db in
    let (token, with_token) = bootstrap_enrollment host.token with_client in
    wire host (log_of client ++ log_of token) (load_prefixes host.answers with_token) with_token

-- `main`, with the first purge of the retention that it starts, and without the rounds of the
-- dispatcher and of the webhook worker, which it starts too; none is an exit with code 1.
unfoldable pub start_server : Host → Db → Option Running × Db
unfolding boot
start_server host db = boot host (open_store host db)
