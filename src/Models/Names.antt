-- ===== src/Models/Names.antt =====
-- The string constants of server/internal/models/models.go.
use wsms_gateway.Models.Enums.{Operator, DeviceStatus, SimStatus, MessageStatus}
use wsms_gateway.Models.Records.{Text}
use wsms_gateway.Text.{codes}

unfoldable pub status_text : MessageStatus → Text
status_text MessageStatus.queued = codes "QUEUED"
status_text MessageStatus.routing = codes "ROUTING"
status_text MessageStatus.dispatched = codes "DISPATCHED"
status_text MessageStatus.awaiting_ack = codes "AWAITING_ACK"
status_text MessageStatus.sent = codes "SENT"
status_text MessageStatus.sent_unconfirmed = codes "SENT_UNCONFIRMED"
status_text MessageStatus.delivered = codes "DELIVERED"
status_text MessageStatus.failed = codes "FAILED"
status_text MessageStatus.expired = codes "EXPIRED"
status_text MessageStatus.cancelled = codes "CANCELLED"

unfoldable pub operator_text : Operator → Text
operator_text Operator.telkomsel = codes "TELKOMSEL"
operator_text Operator.indosat = codes "INDOSAT"
operator_text Operator.xl = codes "XL"
operator_text Operator.axis = codes "AXIS"
operator_text Operator.tri = codes "TRI"
operator_text Operator.smartfren = codes "SMARTFREN"
operator_text Operator.unknown = codes "UNKNOWN"

unfoldable pub sim_status_text : SimStatus → Text
sim_status_text SimStatus.unknown = codes "UNKNOWN"
sim_status_text SimStatus.ready = codes "READY"
sim_status_text SimStatus.absent = codes "ABSENT"
sim_status_text SimStatus.disabled = codes "DISABLED"
sim_status_text SimStatus.quota_exceeded = codes "QUOTA_EXCEEDED"
sim_status_text SimStatus.cooldown = codes "COOLDOWN"

unfoldable pub device_status_text : DeviceStatus → Text
device_status_text DeviceStatus.enrolled = codes "ENROLLED"
device_status_text DeviceStatus.online = codes "ONLINE"
device_status_text DeviceStatus.offline = codes "OFFLINE"
device_status_text DeviceStatus.disabled = codes "DISABLED"
