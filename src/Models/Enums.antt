-- ===== src/Models/Enums.antt =====
-- server/internal/models/models.go: the enumerations. The string constants are constructors, so a
-- row holds none but these values, as the CHECK constraints of the schema demand. The sets that
-- the code's `IN` lists and `switch` cases name are functions by clauses.
use wsms_gateway.Base.{ℕ, Bool, true, false, ◌==◌, ◌≡◌, ◌↔◌, arith}

pub data Operator : Type 0 where
  telkomsel indosat xl axis tri smartfren unknown : Operator

pub data Encoding : Type 0 where
  gsm7 ucs2 : Encoding

pub data DeviceStatus : Type 0 where
  enrolled online offline disabled : DeviceStatus

pub data SimStatus : Type 0 where
  unknown ready absent disabled quota_exceeded cooldown : SimStatus

pub data MessageStatus : Type 0 where
  queued routing dispatched awaiting_ack sent sent_unconfirmed : MessageStatus
  delivered failed expired cancelled : MessageStatus

pub data RoutingPolicy : Type 0 where
  on_net_pref on_net_strict any : RoutingPolicy

pub data FallbackMode : Type 0 where
  least_loaded default_op random : FallbackMode

-- The roles of the console's users.
pub data Role : Type 0 where
  owner operator support readonly : Role

pub data EventType : Type 0 where
  submitted routed dispatched ack_accepted ack_rejected ack_duplicate : EventType
  sent sent_unconfirmed delivered failed expired cancelled requeued : EventType

-- Equality of operators, by their place in the declaration.
abbrev operator_index : Operator → ℕ
operator_index Operator.telkomsel = 0
operator_index Operator.indosat = 1
operator_index Operator.xl = 2
operator_index Operator.axis = 3
operator_index Operator.tri = 4
operator_index Operator.smartfren = 5
operator_index Operator.unknown = 6

abbrev pub operator_eq : Operator → Operator → Bool
operator_eq a b = operator_index a == operator_index b

pub operator_eq_iff : (a b : Operator) → (operator_eq a b ≡ true) ↔ (a ≡ b)
operator_eq_iff a b = ground arith

abbrev pub is_unknown : Operator → Bool
is_unknown Operator.unknown = true
is_unknown _ = false

abbrev pub is_disabled : DeviceStatus → Bool
is_disabled DeviceStatus.disabled = true
is_disabled _ = false

abbrev pub is_online : DeviceStatus → Bool
is_online DeviceStatus.online = true
is_online _ = false

abbrev pub is_ready : SimStatus → Bool
is_ready SimStatus.ready = true
is_ready _ = false

abbrev pub is_absent : SimStatus → Bool
is_absent SimStatus.absent = true
is_absent _ = false

abbrev pub is_queued : MessageStatus → Bool
is_queued MessageStatus.queued = true
is_queued _ = false

abbrev pub is_routing : MessageStatus → Bool
is_routing MessageStatus.routing = true
is_routing _ = false

-- QUEUED or ROUTING: nothing has been handed to a device.
abbrev pub is_waiting : MessageStatus → Bool
is_waiting MessageStatus.queued = true
is_waiting MessageStatus.routing = true
is_waiting _ = false

-- AWAITING_ACK, DISPATCHED or SENT.
abbrev pub is_pinned : MessageStatus → Bool
is_pinned MessageStatus.awaiting_ack = true
is_pinned MessageStatus.dispatched = true
is_pinned MessageStatus.sent = true
is_pinned _ = false

-- DELIVERED, FAILED, EXPIRED, CANCELLED or SENT_UNCONFIRMED.
abbrev pub is_terminal : MessageStatus → Bool
is_terminal MessageStatus.delivered = true
is_terminal MessageStatus.failed = true
is_terminal MessageStatus.expired = true
is_terminal MessageStatus.cancelled = true
is_terminal MessageStatus.sent_unconfirmed = true
is_terminal _ = false
