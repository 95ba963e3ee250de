-- ===== src/Admin/Traffic.antt =====
-- server/internal/admin: messageCancel of actions.go, and sendCompose, adminClientID and unmaskMSISDN
-- of handlers.go.
pub mod Audited
pub mod Messages
use wsms_gateway.Base.{
  ℕ, ◌+◌, Bool, true, false, not, ◌&&◌, Option, none, some, List, [], ◌∷◌, ◌++◌, ◌==◌, any, first,
  update_where, if◌then◌else◌,
}
use wsms_gateway.Models.Enums.{Operator, MessageStatus, RoutingPolicy, EventType, is_queued}
use wsms_gateway.Models.Records.{Text, is_empty, AuditAction, Message, Detail, Client, Db}
use wsms_gateway.Text.{text, codes, text_eq}
use wsms_gateway.SmsText.{analyze}
use wsms_gateway.Router.Msisdn.{normalize_msisdn, detect_operator}
use wsms_gateway.Dispatch.State.{find_message, with_status, event}
use wsms_gateway.Api.Messages.{is_over, request_cancel}
use wsms_gateway.Admin.Console.{Console, ConsoleEnv, User, Answer, can_unmask, audit}

pub cancel_row : ConsoleEnv → ℕ → Db → Db
cancel_row e id db = record db {
  messages =
      update_where (λ m. m.id == id && is_queued m.status)
        (with_status e.now MessageStatus.cancelled (text "cancelled by operator")) db.messages;
}

-- A message in flight is asked for at its device; one that is over is left alone.
pub cancel_queued : ConsoleEnv → ℕ → Message → Console → Console
unfolding cancel_row
cancel_queued e id m c =
    if any (λ (x : Message). x.id == id && is_queued x.status) c.db.messages
    then record c { db = cancel_row e id c.db }
    else if is_over m.status
    then c
    else record c { hub = request_cancel e.pick id m.assigned_device_id c.hub }

-- `messageCancel`.
unfoldable pub message_cancel : ConsoleEnv → User → ℕ → Console → Answer × Console
unfolding cancel_queued
message_cancel e u id c = elim (find_message id c.db) [
  | none ↦ (Answer.not_found, c)
  | some m ↦
      let done = cancel_queued e id m c in
      (Answer.rendered, record done { db = audit e.now u AuditAction.message_cancel id done.db })
]

-- `unmaskMSISDN`.
unfoldable pub unmask_msisdn : ConsoleEnv → User → ℕ → Text → Console → Answer × Console
unmask_msisdn e u id reason c =
    if can_unmask u.role
    then (elim (find_message id c.db) [
      | none ↦ (Answer.not_found, c)
      | some m ↦ (
        Answer.number m.target_msisdn,
        record c { db = audit e.now u (AuditAction.unmask reason) id c.db },
      )
    ])
    else (Answer.forbidden, c)

pub record Compose : Type 0 where
  pub to : Text
  pub message : Text
  pub routing_policy : Text
  pub ttl_seconds : Text

-- What is not one of the policies is ON_NET_PREF.
policy_or_default : Text → RoutingPolicy
policy_or_default p =
    if text_eq p (codes "ON_NET_STRICT")
    then RoutingPolicy.on_net_strict
    else if text_eq p (codes "ANY")
    then RoutingPolicy.any
    else RoutingPolicy.on_net_pref

ttl_of : ConsoleEnv → Text → ℕ
ttl_of e [] = e.default_ttl_ms
ttl_of e (c ∷ s) = elim (e.parse_duration (c ∷ s)) [ none ↦ e.default_ttl_ms | some ms ↦ ms ]

pub composed : ConsoleEnv → ℕ → Compose → Text → Message
unfolding policy_or_default ttl_of
composed e client form canonical = record {
  id = e.new_id 0;
  client_id = client;
  target_msisdn = canonical;
  target_operator = detect_operator canonical e.prefixes;
  body = form.message;
  encoding = (analyze form.message).0;
  segments = (analyze form.message).1;
  status = MessageStatus.queued;
  routing_policy = policy_or_default form.routing_policy;
  assigned_sim_id = none;
  assigned_device_id = none;
  assigned_operator = none;
  dedup_key = none;
  payload_hash = [];
  attempts = 0;
  max_attempts = 3;
  callback_url = [];
  last_error = [];
  expires_at = e.now + ttl_of e form.ttl_seconds;
  dispatched_at = none;
  created_at = e.now;
  updated_at = e.now;
}

abbrev pub console_name : Text
console_name = codes "admin-console"

abbrev pub is_console : Client → Bool
is_console c = text_eq c.name console_name && not c.deleted

console_client : ConsoleEnv → Client
console_client e = record {
  id = e.new_id 1;
  name = console_name;
  active = true;
  webhook_secret_enc = [];
  updated_at = e.now;
  deleted = false;
}

-- `adminClientID`, with the row that it makes if there is none.
unfoldable pub admin_client_id : ConsoleEnv → Db → ℕ × Db
unfolding console_client
admin_client_id e db = elim (first is_console db.clients) [
  | some c ↦ (c.id, db)
  | none ↦ (
    e.new_id 1,
    if e.stores 1 then record db { clients = db.clients ++ console_client e ∷ [] } else db,
  )
]

pub queue_composed : ConsoleEnv → User → Message → Console → Answer × Console
queue_composed e u m c =
    if e.stores 0
    then (
      Answer.sent m.target_operator,
      record c {
        db = audit e.now u (AuditAction.message_send m.target_operator) m.id (
            event e.now m.id EventType.submitted Detail.none
              (record c.db { messages = c.db.messages ++ m ∷ [] }));
      },
    )
    else (Answer.rejected, c)

pub compose_to : ConsoleEnv → User → Compose → Option Text → Console → Answer × Console
unfolding composed queue_composed admin_client_id
compose_to e u form none c = (Answer.rejected, c)
compose_to e u form (some canonical) c =
    if is_empty form.message
    then (Answer.rejected, c)
    else (let (client, db) = admin_client_id e c.db in
        queue_composed e u (composed e client form canonical) (record c { db = db }))

-- `sendCompose`, behind its test of the role.
unfoldable pub send_compose : ConsoleEnv → User → Compose → Console → Answer × Console
unfolding compose_to
send_compose e u form c = compose_to e u form (normalize_msisdn form.to) c
