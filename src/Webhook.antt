-- ===== src/Webhook.antt =====
-- server/internal/webhook/webhook.go: the queue of status callbacks, and what an attempt at one makes
-- of its row. The request itself is the subject of Webhook.Delivery.
pub mod Queue
pub mod Backoff
pub mod Delivery
mod Tests
use wsms_gateway.Base.{
  ℕ, zero, suc, ◌+◌, ◌*◌, ◌^◌, Bool, true, false, not, ◌&&◌, Option, none, some, List, [], ◌∷◌,
  ◌++◌, ltb, leb, ◌==◌, any, select, update_where, if◌then◌else◌,
}
use wsms_gateway.Models.Enums.{is_terminal}
use wsms_gateway.Models.Records.{Text, is_empty, Message, DeliveryStatus, WebhookDelivery, Db}
use wsms_gateway.Text.{text}
use wsms_gateway.Dispatch.State.{find_message}

-- `terminalStates`, a callback URL, and no delivery yet.
pub awaits_callback : List WebhookDelivery → Message → Bool
awaits_callback deliveries m =
    is_terminal m.status
    && (not (is_empty m.callback_url)
        && not (any (λ (w : WebhookDelivery). w.message_id == m.id) deliveries))

abbrev pub take : {A : Type 0} → ℕ → List A → List A
take zero xs = []
take (suc n) [] = []
take (suc n) (x ∷ xs) = x ∷ take n xs

pub new_delivery : ℕ → ℕ → ℕ → Message → WebhookDelivery
new_delivery now id max_attempts m = record {
  id = id;
  message_id = m.id;
  client_id = m.client_id;
  url = m.callback_url;
  event = m.status;
  status = DeliveryStatus.pending;
  attempts = 0;
  max_attempts = max_attempts;
  last_code = 0;
  last_error = [];
  next_attempt_at = now;
  delivered_at = none;
  updated_at = now;
}

-- `Create`, which the unique index on `message_id` refuses for a second delivery.
pub insert_delivery : WebhookDelivery → List WebhookDelivery → List WebhookDelivery
insert_delivery w deliveries =
    if any (λ (x : WebhookDelivery). x.message_id == w.message_id) deliveries
    then deliveries
    else deliveries ++ w ∷ []

pub insert_each : ℕ → (ℕ → ℕ) → ℕ → ℕ → List Message → List WebhookDelivery → List WebhookDelivery
unfolding new_delivery insert_delivery
insert_each now new_id max_attempts n [] deliveries = deliveries
insert_each now new_id max_attempts n (m ∷ messages) deliveries =
    insert_each now new_id max_attempts (suc n) messages
      (insert_delivery (new_delivery now (new_id n) max_attempts m) deliveries)

-- `enqueue`; `new_id n` is the id of the n-th new delivery.
unfoldable pub enqueue : ℕ → (ℕ → ℕ) → ℕ → Db → Db
unfolding awaits_callback insert_each
enqueue now new_id max_attempts db = record db {
  deliveries =
      insert_each now new_id max_attempts 0
        (take 200 (select (awaits_callback db.deliveries) db.messages)) db.deliveries;
}

-- The outcome of the request: none if it could not be sent.
pub record Attempt : Type 0 where
  pub now : ℕ
  pub answer : Option ℕ
  pub error : Text

-- min (5 min, 2 ^ attempts s), in milliseconds.
unfoldable pub backoff : ℕ → ℕ
backoff attempts = let pause = 1000 * 2 ^ attempts in if ltb 300000 pause then 300000 else pause

-- The `upd` of `fail`, on the row; `wd` is the row as it was read.
pub failed : Attempt → WebhookDelivery → ℕ → Text → WebhookDelivery → WebhookDelivery
failed a wd code reason w =
    if leb wd.max_attempts (wd.attempts + 1)
    then record w {
      attempts = wd.attempts + 1;
      last_code = code;
      last_error = reason;
      updated_at = a.now;
      status = DeliveryStatus.failed;
    }
    else record w {
      attempts = wd.attempts + 1;
      last_code = code;
      last_error = reason;
      updated_at = a.now;
      next_attempt_at = a.now + backoff (wd.attempts + 1);
    }

pub delivered : Attempt → WebhookDelivery → ℕ → WebhookDelivery → WebhookDelivery
delivered a wd code w = record w {
  status = DeliveryStatus.sent;
  attempts = wd.attempts + 1;
  last_code = code;
  delivered_at = some a.now;
  updated_at = a.now;
}

abbrev pub outcome : Attempt → WebhookDelivery → Option ℕ → WebhookDelivery → WebhookDelivery
outcome a wd none = failed a wd 0 a.error
outcome a wd (some code) =
    if leb 200 code && ltb code 300
    then delivered a wd code
    else failed a wd code (text "non-2xx response")
