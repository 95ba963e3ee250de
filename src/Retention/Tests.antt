-- ===== src/Retention/Tests.antt =====
-- The purge of a database with one dispatched message.
use wsms_gateway.Base.{[], ◌∷◌}
use wsms_gateway.Models.Records.{Db}
use wsms_gateway.Retention.{purge}
use wsms_gateway.Retention.Orphans.{Purged, purge-Purged}
use wsms_gateway.Samples.{late_db}

abbrev ledger_db : Db
ledger_db = record late_db {
  sends = record { message_id = 100; sim_id = 10; device_id = 1; dispatched_at = 100000 } ∷ [];
}

purge-Purged_example : Purged 500000 ledger_db (purge 500000 ledger_db)
purge-Purged_example = purge-Purged 500000 ledger_db
