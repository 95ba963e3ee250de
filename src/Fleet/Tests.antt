-- ===== src/Fleet/Tests.antt =====
-- The theorems about SIM reports at a report that names one of two SIMs.
use wsms_gateway.Base.{◌≡◌, refl, ◌+◌, true, some, [], ◌∷◌, by_key}
use wsms_gateway.Models.Enums.{SimStatus}
use wsms_gateway.Models.Records.{Sim}
use wsms_gateway.Text.{codes}
use wsms_gateway.Ws.Protocol.{SimInfo}
use wsms_gateway.Router.Engine.Quota.{sim_key}
use wsms_gateway.Fleet.{Ids, upsert_sims}
use wsms_gateway.Fleet.Reconcile.{IsKept, upsert_sims-IsKept}
use wsms_gateway.Samples.{xl_sim, fleet_db}

abbrev ids : Ids
ids = record { new_id = λ n. n + 1000; answers = λ n. true }

abbrev one_sim : SimInfo
one_sim = record { subscription_id = 1; slot = 0; carrier_name = codes "Telkomsel"; number = [] }

upsert_sims-IsKept_example :
    (s' : Sim) × (by_key sim_key 11 (upsert_sims 200000 ids 1 (one_sim ∷ []) fleet_db).0.sims
      ≡ some s')
    × IsKept xl_sim s'
upsert_sims-IsKept_example = upsert_sims-IsKept 200000 ids 1 (one_sim ∷ []) fleet_db 11 xl_sim refl

abbrev absent_xl : Sim
absent_xl = record xl_sim { status = SimStatus.absent; updated_at = 200000 }
