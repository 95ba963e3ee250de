-- ===== src/Models/Records.antt =====
-- server/internal/models/models.go: the tables. Ids (UUIDs, subscription ids) are opaque numbers,
-- times are milliseconds, text is its list of code points, and a nullable column is an option.
-- `deleted` stands for a `deleted_at` that is set.
use wsms_gateway.Base.{ℕ, Bool, true, false, Option, List, [], ◌∷◌}
use wsms_gateway.Models.Enums.{
  Operator, Encoding, DeviceStatus, SimStatus, MessageStatus, RoutingPolicy, FallbackMode,
  EventType, Role,
}

abbrev pub Text : Type 0
Text = List ℕ

abbrev pub is_empty : Text → Bool
is_empty [] = true
is_empty (c ∷ s) = false

pub record Device : Type 0 where
  pub id : ℕ
  pub name : Text
  pub status : DeviceStatus
  pub last_seen_at : Option ℕ
  pub app_version : Text
  pub push_token : Text
  pub secret_hash : Text
  pub wake_misses : ℕ
  pub created_at : ℕ
  pub updated_at : ℕ
  pub deleted : Bool

pub record Sim : Type 0 where
  pub id : ℕ
  pub device_id : ℕ
  pub slot : ℕ
  pub subscription_id : ℕ
  pub operator : Operator
  pub operator_locked : Bool
  pub msisdn : Text
  pub status : SimStatus
  pub daily_quota : ℕ
  pub sent_today : ℕ
  pub sent_window : ℕ
  pub min_gap_ms : ℕ
  pub health_score : ℕ
  pub cooldown_until : Option ℕ
  pub last_used_at : Option ℕ
  pub created_at : ℕ
  pub updated_at : ℕ
  pub deleted : Bool

pub record Message : Type 0 where
  pub id : ℕ
  pub client_id : ℕ
  pub target_msisdn : Text
  pub target_operator : Operator
  pub body : Text
  pub encoding : Encoding
  pub segments : ℕ
  pub status : MessageStatus
  pub routing_policy : RoutingPolicy
  pub assigned_sim_id : Option ℕ
  pub assigned_device_id : Option ℕ
  pub assigned_operator : Option Operator
  pub dedup_key : Option Text
  pub payload_hash : Text
  pub attempts : ℕ
  pub max_attempts : ℕ
  pub callback_url : Text
  pub last_error : Text
  pub expires_at : ℕ
  pub dispatched_at : Option ℕ
  pub created_at : ℕ
  pub updated_at : ℕ

-- The JSON detail of an event, one constructor for each shape that the code writes.
pub data Detail : Type 0 where
  none : Detail
  reason : Text → Detail
  dispatch : (sim_id device_id : ℕ) → Operator → (on_net : Bool) → Detail
  reject : Text → (next : MessageStatus) → Detail

pub record MessageEvent : Type 0 where
  pub message_id : ℕ
  pub event_type : EventType
  pub detail : Detail
  pub created_at : ℕ

pub record MessageSend : Type 0 where
  pub message_id : ℕ
  pub sim_id : ℕ
  pub device_id : ℕ
  pub dispatched_at : ℕ

pub data DeliveryStatus : Type 0 where
  pending sent failed : DeliveryStatus

pub record WebhookDelivery : Type 0 where
  pub id : ℕ
  pub message_id : ℕ
  pub client_id : ℕ
  pub url : Text
  pub event : MessageStatus
  pub status : DeliveryStatus
  pub attempts : ℕ
  pub max_attempts : ℕ
  pub last_code : ℕ
  pub last_error : Text
  pub next_attempt_at : ℕ
  pub delivered_at : Option ℕ
  pub updated_at : ℕ

-- Who writes to the audit trail: a device, or a user of the console with the role of the session.
pub data Actor : Type 0 where
  device : ℕ → Actor
  user : Text → Role → Actor

-- What is written: the action with its reason, one constructor for each pair that the code writes.
pub data AuditAction : Type 0 where
  sim_quota : ℕ → AuditAction
  sim_disable sim_enable sim_cooldown device_rescan device_delete device_unlink : AuditAction
  device_rename : Text → AuditAction
  message_cancel client_delete key_revoke : AuditAction
  message_send : Operator → AuditAction
  unmask : Text → AuditAction
  token_create token_delete client_create client_enable client_disable : Text → AuditAction
  key_create webhook_rotate key_signing : Text → AuditAction
  routing_fallback : FallbackMode → Operator → AuditAction

pub record AdminAudit : Type 0 where
  pub actor : Actor
  pub action : AuditAction
  pub target_id : ℕ
  pub created_at : ℕ

pub record AdminUser : Type 0 where
  pub id : ℕ
  pub username : Text
  pub password_hash : Text
  pub role : Role
  pub active : Bool
  pub last_login_at : Option ℕ
  pub updated_at : ℕ
  pub deleted : Bool

pub record AdminSession : Type 0 where
  pub token_hash : Text
  pub user_id : ℕ
  pub username : Text
  pub role : Role
  pub expires_at : ℕ
  pub created_at : ℕ

pub record AppSettings : Type 0 where
  pub id : ℕ
  pub fallback_mode : FallbackMode
  pub fallback_operator : Operator
  pub updated_at : ℕ

pub record OperatorPrefix : Type 0 where
  pub prefix : Text
  pub operator : Operator

pub record Client : Type 0 where
  pub id : ℕ
  pub name : Text
  pub active : Bool
  pub webhook_secret_enc : Text
  pub updated_at : ℕ
  pub deleted : Bool

pub record ApiKey : Type 0 where
  pub id : ℕ
  pub client_id : ℕ
  pub prefix : Text
  pub hash : Text
  pub scopes : Text
  pub signing_secret_enc : Text
  pub active : Bool
  pub last_used_at : Option ℕ
  pub updated_at : ℕ
  pub deleted : Bool

pub record EnrollmentToken : Type 0 where
  pub id : ℕ
  pub token_hash : Text
  pub label : Text
  pub used : Bool
  pub device_id : Option ℕ
  pub expires_at : ℕ
  pub used_at : Option ℕ
  pub updated_at : ℕ

-- The tables that the components share.
pub record Db : Type 0 where
  pub devices : List Device
  pub sims : List Sim
  pub messages : List Message
  pub events : List MessageEvent
  pub sends : List MessageSend
  pub deliveries : List WebhookDelivery
  pub audits : List AdminAudit
  pub clients : List Client
  pub keys : List ApiKey
  pub tokens : List EnrollmentToken
  pub users : List AdminUser
  pub sessions : List AdminSession
  pub settings : List AppSettings
  pub prefixes : List OperatorPrefix
