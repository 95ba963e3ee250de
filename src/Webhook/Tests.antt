-- ===== src/Webhook/Tests.antt =====
-- The delivery queue at the delivered message of the samples.
use wsms_gateway.Base.{ℕ, refl, false, All, In, length, order_by, limit, ◌≡◌, ◌≤◌, none, [], ◌∷◌}
use wsms_gateway.Models.Records.{DeliveryStatus, WebhookDelivery, Db}
use wsms_gateway.Webhook.{Attempt}
use wsms_gateway.Models.Names.{status_text}
use wsms_gateway.Webhook.Delivery.{
  Net, Callback, Answer, callback_of, due, deliver_each, deliver_one, batch, deliver_batch,
}
use wsms_gateway.Webhook.Delivery.Rounds.{Made}
use wsms_gateway.Webhook.Delivery.Posted.{Due, deliver_batch-Posted}
use wsms_gateway.Text.{codes}
use wsms_gateway.Samples.{delivered_otp, late_db}

abbrev callback_db : Db
callback_db = record late_db {
  messages = record delivered_otp { callback_url = codes "https://shop" } ∷ [];
}

abbrev refused : Attempt
refused = record { now = 200000; answer = none; error = [] }

abbrev fresh : WebhookDelivery
fresh = record {
  id = 1;
  message_id = 100;
  client_id = 7;
  url = [];
  event = delivered_otp.status;
  status = DeliveryStatus.pending;
  attempts = 6;
  max_attempts = 8;
  last_code = 0;
  last_error = [];
  next_attempt_at = 0;
  delivered_at = none;
  updated_at = 0;
}

-- One delivery is due, and one has failed.
abbrev waiting_db : Db
waiting_db = record callback_db {
  deliveries = fresh ∷ record fresh { id = 2; status = DeliveryStatus.failed } ∷ [];
}

abbrev web : ℕ → Net
web k = record {
  now = 200000;
  encode = λ p. p.status;
  open_secret = λ b. none;
  hmac = λ key s. s;
  bad_url = λ u. none;
  answers = λ c. Answer.code 200;
}

posted_body :
    (c : Callback) × ((deliver_batch 200000 web waiting_db).1 ≡ c ∷ [])
    × (c.body ≡ codes "DELIVERED")
unfolding deliver_batch deliver_each deliver_one batch due order_by limit callback_of status_text
posted_body = (_, refl, refl)

deliver_batch-Posted_example :
    All
      (λ c. (k : ℕ) × (w : WebhookDelivery) × Due 200000 waiting_db w × Made (web k) w waiting_db c)
      (deliver_batch 200000 web waiting_db).1
    × (length (deliver_batch 200000 web waiting_db).1 ≤ 50)
    × ((w : WebhookDelivery)
        → In w waiting_db.deliveries
        → due 200000 w ≡ false
        → In w (deliver_batch 200000 web waiting_db).0.deliveries)
deliver_batch-Posted_example = deliver_batch-Posted 200000 web waiting_db (refl, (refl, tt))
