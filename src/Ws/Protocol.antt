-- ===== src/Ws/Protocol.antt =====
-- server/internal/ws/protocol.go: the payloads of the frames. JSON encoding and decoding is not
-- modelled: a frame is its decoded payload, and one whose payload does not decode is `other`.
use wsms_gateway.Base.{ℕ, List}
use wsms_gateway.Base.Int.{ℤ}
use wsms_gateway.Models.Enums.{Operator, Encoding, SimStatus}
use wsms_gateway.Models.Records.{Text}

pub record HelloData : Type 0 where
  pub app_version : Text
  pub os : Text
  pub model : Text
  pub push_token : Text

pub record SimInfo : Type 0 where
  pub subscription_id : ℕ
  pub slot : ℕ
  pub carrier_name : Text
  pub number : Text

pub record SendCommandData : Type 0 where
  pub message_id : ℕ
  pub target : Text
  pub body : Text
  pub subscription_id : ℕ
  pub encoding : Encoding
  pub expires_at_ms : ℕ

pub data AckResult : Type 0 where
  accepted rejected duplicate other : AckResult

pub record SendAckData : Type 0 where
  pub message_id : ℕ
  pub result : AckResult
  pub reason : Text

pub data ReportStatus : Type 0 where
  sent delivered failed send_failed other : ReportStatus

pub record DeliveryReportData : Type 0 where
  pub message_id : ℕ
  pub status : ReportStatus
  pub reason : Text

pub record SimState : Type 0 where
  pub sim_id : ℕ
  pub subscription_id : ℕ
  pub slot : ℕ
  pub operator : Operator
  pub msisdn : Text
  pub status : SimStatus
  pub daily_quota : ℕ
  pub sent_today : ℕ
  pub health_score : ℕ

pub record SetQuotaData : Type 0 where
  pub subscription_id : ℕ
  pub daily_quota : ℤ

pub data CancelResult : Type 0 where
  cancelled already_sent other : CancelResult

pub record CancelAckData : Type 0 where
  pub message_id : ℕ
  pub result : CancelResult

-- Device to server.
pub data Inbound : Type 0 where
  hello : HelloData → Inbound
  sim_report : List SimInfo → Inbound
  heartbeat other : Inbound
  send_ack : SendAckData → Inbound
  delivery_report : DeliveryReportData → Inbound
  cancel_ack : CancelAckData → Inbound
  set_quota : SetQuotaData → Inbound

-- Server to device.
pub data Frame : Type 0 where
  send_command : SendCommandData → Frame
  cancel : ℕ → Frame
  sim_state : List SimState → Frame
  config : Frame
