-- ===== src/Router/Carrier.antt =====
-- server/internal/router/operator.go: `CarrierToOperator`.
mod Tests
use wsms_gateway.Base.{ℕ, Bool, true, false, ◌||◌, List, [], ◌∷◌, if◌then◌else◌}
use wsms_gateway.Models.Enums.{Operator}
use wsms_gateway.Models.Records.{Text}
use wsms_gateway.Text.{codes, text_eq, contains, trim_space, upper}

abbrev pub upper_text : Text → Text
upper_text [] = []
upper_text (c ∷ s) = upper c ∷ upper_text s

-- The `switch` on the upper-case name.
carrier_switch : Text → Operator
carrier_switch n =
    if contains n (codes "TELKOMSEL") || contains n (codes "TSEL") || contains n (codes "SIMPATI")
    then Operator.telkomsel
    else if contains n (codes "INDOSAT") || contains n (codes "IM3") || contains n (codes "OOREDOO")
    then Operator.indosat
    else if contains n (codes "XL")
    then Operator.xl
    else if contains n (codes "AXIS")
    then Operator.axis
    else if text_eq n (codes "3")
        || contains n (codes "TRI")
        || contains n (codes "HUTCHISON")
        || contains n (codes "H3I")
    then Operator.tri
    else if contains n (codes "SMARTFREN") || contains n (codes "SMART")
    then Operator.smartfren
    else Operator.unknown

unfoldable pub carrier_to_operator : Text → Operator
unfolding carrier_switch trim_space upper
carrier_to_operator name = carrier_switch (upper_text (trim_space name))
