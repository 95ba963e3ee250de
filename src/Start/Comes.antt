-- ===== src/Start/Comes.antt =====
-- What a start (server/cmd/wsmsd/main.go) leaves.
use wsms_gateway.Base.{◌≡◌, Option, none, some, []}
use wsms_gateway.Models.Records.{Text, Db}
use wsms_gateway.Router.Msisdn.{lookup, default_prefixes}
use wsms_gateway.Store.{as_table}
use wsms_gateway.Store.Prefixes.{first_of}
use wsms_gateway.Retention.Startup.{Retained}
use wsms_gateway.Admin.Console.{Console}
use wsms_gateway.Admin.Routing.Persisted.{IsPersisted}
use wsms_gateway.Start.{Host, Running}

-- The messages and the fleet.
abbrev pub Kept : Db → Db → Type 0
Kept db after =
    (after.messages ≡ db.messages) × (after.devices ≡ db.devices) × (after.sims ≡ db.sims)

-- The console of a server that was started.
abbrev pub console_of : Running → Console
console_of r = record { db = r.db; hub = r.hub; fallback = r.fallback; flashes = [] }

-- What a start comes to.
abbrev pub Comes : Host → Db → Option Running × Db → Type 0
Comes host db (none, after) = Kept db after
Comes host db (some r, after) =
    Retained host.retention_days host.cutoff db after
    × (after.devices ≡ db.devices)
    × (after.sims ≡ db.sims)
    × (r.db ≡ after)
    × ((k : Text)
        → lookup k r.prefixes
          ≡ first_of (lookup k (as_table db.prefixes)) (lookup k default_prefixes))
    × IsPersisted (console_of r)
    × (r.hub.conns ≡ [])
