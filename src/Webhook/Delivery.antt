-- ===== src/Webhook/Delivery.antt =====
-- server/internal/webhook/webhook.go: deliverOne with the payload and its signature, deliverBatch, and
-- what Run does at a tick. JSON, HMAC, AES-GCM and the client's server are parameters.
pub mod Rounds
pub mod Posted
use wsms_gateway.Base.{
  ℕ, zero, suc, ◌/◌, Bool, true, false, not, ◌&&◌, ◌||◌, Option, none, some, List, [], ◌∷◌, ◌++◌,
  ltb, leb, ◌==◌, first, select, update_where, order_by, limit, if◌then◌else◌,
}
use wsms_gateway.Models.Records.{
  Text, is_empty, Message, DeliveryStatus, WebhookDelivery, Client, Db,
}
use wsms_gateway.Models.Names.{status_text, operator_text}
use wsms_gateway.Text.{codes}
use wsms_gateway.Text.Decimal.{decimal}
use wsms_gateway.Dispatch.State.{find_message}
use wsms_gateway.Webhook.{Attempt, failed, delivered, outcome, enqueue}

pub record Payload : Type 0 where
  pub event : Text
  pub message_id : ℕ
  pub status : Text
  pub target_operator : Text
  pub segments : ℕ
  pub attempts : ℕ
  pub last_error : Text
  pub timestamp : ℕ

-- The request: the headers that depend on the delivery, and the body.
pub record Callback : Type 0 where
  pub url : Text
  pub event : Text
  pub timestamp : Text
  pub signature : Option Text
  pub body : Text

-- The answer of the client's server: a status code, or the error of `client.Do`.
pub data Answer : Type 0 where
  code : ℕ → Answer
  error : Text → Answer

-- What one delivery meets: the clock, `json.Marshal`, `secret.Open` under the master key, the HMAC in hexadecimal, the
-- error of `NewRequest` for a URL, and the client's server.
pub record Net : Type 0 where
  pub now : ℕ
  pub encode : Payload → Text
  pub open_secret : Text → Option Text
  pub hmac : Text → Text → Text
  pub bad_url : Text → Option Text
  pub answers : Callback → Answer

abbrev pub find_client : ℕ → Db → Option Client
find_client id db = first (λ (c : Client). c.id == id && not c.deleted) db.clients

signed_with : Net → Text → Text → Option Text → Option Text
signed_with net ts body none = none
signed_with net ts body (some key) = some (net.hmac key (ts ++ codes "." ++ body))

-- `sign`; none is "".
unfoldable pub sign : Net → ℕ → Text → Text → Db → Option Text
unfolding signed_with
sign net client ts body db = elim (find_client client db) [
  | none ↦ none
  | some c ↦
      if is_empty c.webhook_secret_enc
      then none
      else signed_with net ts body (net.open_secret c.webhook_secret_enc)
]

pub payload_of : Net → WebhookDelivery → Message → Payload
payload_of net wd msg = record {
  event = status_text wd.event;
  message_id = msg.id;
  status = status_text msg.status;
  target_operator = operator_text msg.target_operator;
  segments = msg.segments;
  attempts = msg.attempts;
  last_error = msg.last_error;
  timestamp = net.now;
}

abbrev with_scheme : Option Text → Option Text
with_scheme none = none
with_scheme (some sig) = some (codes "sha256=" ++ sig)

-- The request of `deliverOne`; the clock is in milliseconds.
unfoldable pub callback_of : Net → WebhookDelivery → Message → Db → Callback
unfolding payload_of
callback_of net wd msg db =
    let body = net.encode (payload_of net wd msg) in
    let ts = decimal (net.now / 1000) in
    record {
      url = wd.url;
      event = status_text wd.event;
      timestamp = ts;
      signature = with_scheme (sign net wd.client_id ts body db);
      body = body;
    }

-- The row afterwards.
settle : Net → WebhookDelivery → Answer → Db → Db
unfolding failed delivered
settle net wd (Answer.code n) db = record db {
  deliveries =
      update_where (λ (w : WebhookDelivery). w.id == wd.id)
        (outcome (record { now = net.now; answer = some n; error = [] }) wd (some n)) db.deliveries;
}
settle net wd (Answer.error reason) db = record db {
  deliveries =
      update_where (λ (w : WebhookDelivery). w.id == wd.id)
        (outcome (record { now = net.now; answer = none; error = reason }) wd none) db.deliveries;
}

post : Net → WebhookDelivery → Message → Db → Db × List Callback
unfolding settle
post net wd msg db = elim (net.bad_url wd.url) [
  | some reason ↦ (settle net wd (Answer.error reason) db, [])
  | none ↦ let c = callback_of net wd msg db in (settle net wd (net.answers c) db, c ∷ [])
]

-- `deliverOne` for a delivery that was read, with the requests that it makes.
unfoldable pub deliver_one : Net → WebhookDelivery → Db → Db × List Callback
unfolding post
deliver_one net wd db = elim (find_message wd.message_id db) [
  | none ↦ (db, [])
  | some msg ↦ post net wd msg db
]

is_pending : DeliveryStatus → Bool
is_pending DeliveryStatus.pending = true
is_pending _ = false

-- The WHERE clause of `deliverBatch`.
unfoldable pub due : ℕ → WebhookDelivery → Bool
unfolding is_pending
due now wd = is_pending wd.status && leb wd.next_attempt_at now

abbrev sooner : WebhookDelivery → WebhookDelivery → Bool
sooner a b = ltb a.next_attempt_at b.next_attempt_at

unfoldable pub deliver_each : (ℕ → Net) → List WebhookDelivery → Db → Db × List Callback
deliver_each nets [] db = (db, [])
deliver_each nets (wd ∷ wds) db =
    let (after, first_made) = deliver_one (nets 0) wd db in
    let (final, made) = deliver_each (λ n. nets (suc n)) wds after in (final, first_made ++ made)

unfoldable pub batch : ℕ → Db → List WebhookDelivery
batch now db = limit 50 (order_by sooner (select (due now) db.deliveries))

-- `deliverBatch`; `nets n` is what the n-th delivery meets.
unfoldable pub deliver_batch : ℕ → (ℕ → Net) → Db → Db × List Callback
deliver_batch now nets db = deliver_each nets (batch now db) db

-- A tick of `Run`.
unfoldable pub tick : ℕ → (ℕ → ℕ) → ℕ → (ℕ → Net) → Db → Db × List Callback
tick now new_id max_attempts nets db = deliver_batch now nets (enqueue now new_id max_attempts db)
