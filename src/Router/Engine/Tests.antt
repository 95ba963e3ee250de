-- ===== src/Router/Engine/Tests.antt =====
-- Runs of `Route` and `Release`, and the theorems about them at a small fleet.
use wsms_gateway.Base.{◌≡◌, refl, inl, inr, true, [], arith}
use wsms_gateway.Models.Enums.{Operator, RoutingPolicy}
use wsms_gateway.Models.Records.{Message}
use wsms_gateway.Samples.{tsel_sim, xl_sim, otp, fleet_db, calm, spread}
use wsms_gateway.Router.Engine.{
  Ordering, Choice, RouteError, Result, choice_of, charge_sim, charge, reserve, route,
}
use wsms_gateway.Router.Engine.Reserve.{Reserves, reserve-Reserves}
use wsms_gateway.Router.Engine.Promise.{Chooses}
use wsms_gateway.Router.Engine.Route.{route-Chooses}
use wsms_gateway.Router.Engine.Quota.{WithinQuota, route-WithinQuota}

abbrev on_net_choice : Choice
on_net_choice = record (choice_of tsel_sim) { on_net = true }

abbrev strict_axis : Message
strict_axis = record otp {
  target_operator = Operator.axis;
  routing_policy = RoutingPolicy.on_net_strict;
}

-- On-net first; a message to an operator without a SIM falls back to the least loaded one, and
-- under ON_NET_STRICT waits.
route_tests :
    (route calm spread otp fleet_db ≡ (Result.ok on_net_choice, charge_sim calm 2 fleet_db 10))
    × ((route calm spread (record otp { target_operator = Operator.axis }) fleet_db).0
        ≡ Result.ok (choice_of xl_sim))
    × (route calm spread strict_axis fleet_db ≡ (Result.err RouteError.no_capacity, fleet_db))
unfolding route charge
route_tests = (refl, refl, refl)

reserve-Reserves_example :
    Reserves calm [] 2 Ordering.least_loaded fleet_db
      (reserve calm 2 [] 2 Ordering.least_loaded fleet_db)
reserve-Reserves_example = reserve-Reserves calm 2 [] 2 Ordering.least_loaded fleet_db

route-Chooses_example : Chooses calm spread otp fleet_db (route calm spread otp fleet_db)
route-Chooses_example = route-Chooses calm spread otp fleet_db

fleet-WithinQuota : WithinQuota fleet_db
fleet-WithinQuota s (inl e) = ground arith
fleet-WithinQuota s (inr (inl e)) = ground arith
fleet-WithinQuota s (inr (inr n)) = absurd n

route-WithinQuota_example : WithinQuota (route calm spread otp fleet_db).1
route-WithinQuota_example =
    route-WithinQuota calm spread otp fleet_db (refl, (refl, tt)) fleet-WithinQuota
