-- ===== src/Api/Messages.antt =====
-- server/internal/api/messages.go: submit, read and cancel. `Submit` holds what a submission takes
-- from outside: the clock, the new id, the SHA-256 of the payload, the prefix table, the default
-- TTL, whether the database answers the look-up and the insertion, and what other transactions do
-- between these two statements.
pub mod Submission
pub mod Expiry
pub mod Retry
pub mod Stored
pub mod Follows
pub mod Cancellation
pub mod Owned
use wsms_gateway.Base.{
  ℕ, ◌+◌, ◌-◌, ◌*◌, ◌/◌, ◌%◌, ◌^◌, Bool, true, false, not, ◌&&◌, ◌||◌, Option, none, some, List, [],
  ◌∷◌, ◌++◌, ltb, ◌==◌, any, first, select, update_where, if◌then◌else◌,
}
use wsms_gateway.Base.Int.{ℤ, pos, negsuc}
use wsms_gateway.Models.Enums.{
  Operator, MessageStatus, RoutingPolicy, EventType, is_queued, is_waiting,
}
use wsms_gateway.Models.Records.{Text, is_empty, Message, Detail, MessageEvent, Db}
use wsms_gateway.Text.{text, codes, text_eq}
use wsms_gateway.SmsText.{analyze}
use wsms_gateway.Router.Msisdn.{normalize_msisdn, detect_operator}
use wsms_gateway.Ws.Protocol.{Frame}
use wsms_gateway.Ws.Hub.{Hub, send_to}
use wsms_gateway.Dispatch.State.{with_status, event}
use wsms_gateway.Api.Reply.{Reply}

pub record SubmitReq : Type 0 where
  pub to : Text
  pub message : Text
  pub dedup_key : Text
  pub ttl_seconds : ℤ
  pub routing_policy : Text
  pub callback_url : Text

pub record Submit : Type 0 where
  pub now : ℕ
  pub new_id : ℕ
  pub hash : ℕ → Text → Text → Text
  pub prefixes : Option (List (Text × Operator))
  pub default_ttl_ms : ℕ
  pub finds : Bool
  pub creates : Bool
  pub others : Db → Db

-- The `switch` on the routing policy; none is the 400.
unfoldable pub policy_of : Text → Option RoutingPolicy
policy_of p =
    if text_eq p (codes "ON_NET_PREF")
    then some RoutingPolicy.on_net_pref
    else if text_eq p (codes "ON_NET_STRICT")
    then some RoutingPolicy.on_net_strict
    else if text_eq p (codes "ANY")
    then some RoutingPolicy.any
    else if is_empty p
    then some RoutingPolicy.on_net_pref
    else none

-- `now.Add(time.Duration(s) * time.Second)` for a positive `s`: nanoseconds in an int64 that wraps.
unfoldable pub expiry : ℕ → ℕ → ℕ
expiry now s =
    let ns = s * 10 ^ 9 % 2 ^ 64 in
    if ltb ns (2 ^ 63) then now + ns / 10 ^ 6 else now - (2 ^ 64 - ns) / 10 ^ 6

abbrev expires_of : Submit → ℤ → ℕ
expires_of w (pos s) = if ltb 0 s then expiry w.now s else w.now + w.default_ttl_ms
expires_of w (negsuc s) = w.now + w.default_ttl_ms

abbrev same_dedup : Text → Option Text → Bool
same_dedup key none = false
same_dedup key (some k) = text_eq k key

-- `client_id = ? AND dedup_key = ?`.
abbrev pub has_dedup : ℕ → Text → Message → Bool
has_dedup client key m = m.client_id == client && same_dedup key m.dedup_key

abbrev dedup_of : Text → Option Text
dedup_of key = if is_empty key then none else some key

pub new_message : Submit → ℕ → SubmitReq → Text → RoutingPolicy → Message
new_message w client req canonical policy = record {
  id = w.new_id;
  client_id = client;
  target_msisdn = canonical;
  target_operator = detect_operator canonical w.prefixes;
  body = req.message;
  encoding = (analyze req.message).0;
  segments = (analyze req.message).1;
  status = MessageStatus.queued;
  routing_policy = policy;
  assigned_sim_id = none;
  assigned_device_id = none;
  assigned_operator = none;
  dedup_key = dedup_of req.dedup_key;
  payload_hash = w.hash client canonical req.message;
  attempts = 0;
  max_attempts = 3;
  callback_url = req.callback_url;
  last_error = [];
  expires_at = expires_of w req.ttl_seconds;
  dispatched_at = none;
  created_at = w.now;
  updated_at = w.now;
}

-- The unique index on (client_id, dedup_key), where the key is not null.
abbrev pub conflicts : Option Text → ℕ → List Message → Bool
conflicts none client messages = false
conflicts (some key) client messages = any (has_dedup client key) messages

-- After a failed insertion: replay what another request inserted.
abbrev replay_or_fail : ℕ → Option Text → List Message → Reply
replay_or_fail client none messages = Reply.refused 500
replay_or_fail client (some key) messages = elim (first (has_dedup client key) messages) [
  | none ↦ Reply.refused 500
  | some m ↦ Reply.replay m.id m.status
]

-- From `Create` on.
pub create : Submit → Message → Db → Reply × Db
create w m db =
    if w.creates && not (conflicts m.dedup_key m.client_id db.messages)
    then (
      Reply.accepted m.id m.target_operator m.encoding m.segments m.expires_at,
      event w.now m.id EventType.submitted Detail.none
          (record db { messages = db.messages ++ m ∷ [] }),
    )
    else (replay_or_fail m.client_id m.dedup_key db.messages, db)

-- A message with the same dedup key: the same payload is replayed, another is a conflict.
pub replayed : Submit → Message → Message → Reply
replayed w m old =
    if text_eq old.payload_hash m.payload_hash
    then Reply.replay old.id old.status
    else Reply.refused 409

pub look_up : Submit → Message → Option Text → Db → Reply × Db
unfolding create replayed
look_up w m none db = create w m (w.others db)
look_up w m (some key) db =
    if w.finds
    then (elim (first (has_dedup m.client_id key) db.messages) [
      | none ↦ create w m (w.others db)
      | some old ↦ (replayed w m old, db)
    ])
    else (Reply.refused 500, db)

pub validated : Submit → ℕ → SubmitReq → Option Text → Option RoutingPolicy → Db → Reply × Db
unfolding look_up new_message
validated w client req none policy db = (Reply.refused 400, db)
validated w client req (some canonical) none db = (Reply.refused 400, db)
validated w client req (some canonical) (some policy) db =
    let m = new_message w client req canonical policy in look_up w m m.dedup_key db

-- `submitMessage`, for the client that `clientAuth` found.
unfoldable pub submit_message : Submit → ℕ → SubmitReq → Db → Reply × Db
unfolding validated
submit_message w client req db =
    if is_empty req.to || is_empty req.message
    then (Reply.refused 400, db)
    else validated w client req (normalize_msisdn req.to) (policy_of req.routing_policy) db

abbrev pub owned_by : ℕ → ℕ → Message → Bool
owned_by id client m = m.id == id && m.client_id == client

-- `getMessage`, with `include=events` or without.
unfoldable pub get_message : ℕ → ℕ → Bool → Db → Reply
get_message client id with_events db = elim (first (owned_by id client) db.messages) [
  | none ↦ Reply.refused 404
  | some m ↦
      Reply.message m
        (if with_events then select (λ (v : MessageEvent). v.message_id == m.id) db.events else [])
]

-- The statuses that answer 409: SENT and the terminal ones.
abbrev pub is_over : MessageStatus → Bool
is_over MessageStatus.queued = false
is_over MessageStatus.routing = false
is_over MessageStatus.dispatched = false
is_over MessageStatus.awaiting_ack = false
is_over _ = true

abbrev pub request_cancel : Bool → ℕ → Option ℕ → Hub → Hub
request_cancel pick id none hub = hub
request_cancel pick id (some device) hub = (send_to pick device (Frame.cancel id) hub).0

-- From the conditional update on; `m` is the row as it was read before.
pub cancel_found : ℕ → Bool → ℕ → Message → Db → Hub → Reply × Db × Hub
cancel_found now pick id m db hub =
    if any (λ x. x.id == id && is_queued x.status) db.messages
    then (
      Reply.cancelled id,
      record db {
        messages =
            update_where (λ x. x.id == id && is_queued x.status)
              (with_status now MessageStatus.cancelled (text "cancelled by client")) db.messages;
      },
      hub,
    )
    else if is_over m.status
    then (Reply.refused 409, db, hub)
    else (Reply.cancel_requested id, db, request_cancel pick id m.assigned_device_id hub)

-- `cancelMessage`; `others` is what other transactions do after the message is read.
unfoldable pub cancel_message : ℕ → Bool → (Db → Db) → ℕ → ℕ → Db → Hub → Reply × Db × Hub
unfolding cancel_found
cancel_message now pick others client id db hub = elim (first (owned_by id client) db.messages) [
  | none ↦ (Reply.refused 404, db, hub)
  | some m ↦ cancel_found now pick id m (others db) hub
]
