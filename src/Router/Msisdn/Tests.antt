-- ===== src/Router/Msisdn/Tests.antt =====
-- Runs of the functions of server/internal/router/operator.go on the cases of operator_test.go,
-- and the theorems about them at concrete numbers.
use wsms_gateway.Base.{◌≡◌, refl, ◌↔◌, none, some}
use wsms_gateway.Models.Enums.{Operator}
use wsms_gateway.Models.Records.{Text}
use wsms_gateway.Text.{codes, trim_space, strip}
use wsms_gateway.Router.Msisdn.{is_separator, normalize_msisdn, default_prefixes, detect_operator}
use wsms_gateway.Router.Msisdn.Canonical.{IsSubscriber, canonical, Writes, normalize_msisdn_iff}

normalize_tests :
    (normalize_msisdn (codes "0812-3456-7890") ≡ some (codes "+6281234567890"))
    × (normalize_msisdn (codes "+62 812 3456 7890") ≡ some (codes "+6281234567890"))
    × (normalize_msisdn (codes "6281234567890") ≡ some (codes "+6281234567890"))
    × (normalize_msisdn (codes "81234567890") ≡ some (codes "+6281234567890"))
    × (normalize_msisdn (codes "1234") ≡ none)
    × (normalize_msisdn (codes "+18005551234") ≡ none)
    × (normalize_msisdn (codes "+626281299951524") ≡ none)
    × (normalize_msisdn (codes "06281299951524") ≡ none)
unfolding normalize_msisdn
normalize_tests = (refl, refl, refl, refl, refl, refl, refl, refl)

detect_tests :
    (detect_operator (codes "+6281234567890") none ≡ Operator.telkomsel)
    × (detect_operator (codes "+6285512345678") none ≡ Operator.indosat)
    × (detect_operator (codes "+6281712345678") none ≡ Operator.xl)
    × (detect_operator (codes "+6283112345678") none ≡ Operator.axis)
    × (detect_operator (codes "+6289512345678") none ≡ Operator.tri)
    × (detect_operator (codes "+6288112345678") none ≡ Operator.smartfren)
    × (detect_operator (codes "+6280012345678") none ≡ Operator.unknown)
unfolding detect_operator default_prefixes
detect_tests = (refl, refl, refl, refl, refl, refl, refl)

abbrev spaced : Text
spaced = codes " (0812) 3456-7890"

normalize_msisdn_iff_example : (normalize_msisdn spaced ≡ some (codes "+6281234567890")) ↔ (
    (ds : Text) × IsSubscriber ds
    × (codes "+6281234567890" ≡ canonical ds)
    × Writes (strip is_separator (trim_space spaced)) ds)
normalize_msisdn_iff_example = normalize_msisdn_iff spaced (codes "+6281234567890")

spaced_accepted : normalize_msisdn spaced ≡ some (codes "+6281234567890")
unfolding normalize_msisdn
spaced_accepted = refl
