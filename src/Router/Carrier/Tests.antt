-- ===== src/Router/Carrier/Tests.antt =====
-- Runs of `CarrierToOperator` (server/internal/router/operator.go).
use wsms_gateway.Base.{◌≡◌, refl}
use wsms_gateway.Models.Enums.{Operator}
use wsms_gateway.Text.{codes}
use wsms_gateway.Router.Carrier.{carrier_to_operator}

carrier_tests :
    (carrier_to_operator (codes " Telkomsel ") ≡ Operator.telkomsel)
    × (carrier_to_operator (codes "IM3 Ooredoo") ≡ Operator.indosat)
    × (carrier_to_operator (codes "XL Axiata") ≡ Operator.xl)
    × (carrier_to_operator (codes "3") ≡ Operator.tri)
    × (carrier_to_operator (codes "smartfren") ≡ Operator.smartfren)
    × (carrier_to_operator (codes "Vodafone") ≡ Operator.unknown)
unfolding carrier_to_operator
carrier_tests = (refl, refl, refl, refl, refl, refl)
