-- ===== src/Api/Tests.antt =====
-- The theorems about the requests of clients and devices, at concrete requests.
mod Server
use wsms_gateway.Base.{
  ℕ, List, ltb, ◌-◌, ◌≡◌, refl, ◌<◌, true, false, none, some, [], ◌∷◌, ◌++◌, arith,
}
use wsms_gateway.Base.Int.{pos}
use wsms_gateway.Models.Enums.{Operator, Encoding, MessageStatus, is_queued}
use wsms_gateway.Models.Records.{Message, Client, ApiKey, Db}
use wsms_gateway.Text.{codes, text, text_eq}
use wsms_gateway.Ws.Protocol.{AckResult, ReportStatus}
use wsms_gateway.SmsText.{analyze}
use wsms_gateway.Router.Msisdn.{normalize_msisdn, detect_operator, default_prefixes}
use wsms_gateway.Dispatch.State.{find_message, with_status}
use wsms_gateway.Api.Reply.{Reply}
use wsms_gateway.Api.Auth.{
  Crypto, Request, AuthResult, parse_bearer, has_scope, verify_signing, client_auth,
}
use wsms_gateway.Api.Auth.Bearer.{IsToken}
use wsms_gateway.Api.Auth.Guards.{Authorized, client_auth-Authorized}
use wsms_gateway.Api.Messages.{SubmitReq, Submit, policy_of, expiry, submit_message, cancel_message}
use wsms_gateway.Api.Messages.Submission.{IsDeduped, submit_message-IsDeduped}
use wsms_gateway.Api.Messages.Expiry.{ExpiresFor, Stores, submit_message-Expires}
use wsms_gateway.Api.Messages.Retry.{submit_message_retry}
use wsms_gateway.Api.Messages.Cancellation.{cancel_message_done}
use wsms_gateway.Api.Device.{device_ack, device_delivery}
use wsms_gateway.Api.Device.Ownership.{device_ack_foreign}
use wsms_gateway.Api.RateLimit.{Limiter, serve_all}
use wsms_gateway.Api.RateLimit.Isolation.{alone, answers_to, serve_all-alone}
use wsms_gateway.Samples.{delivered_otp, fleet_db, late_db, phone_hub}

abbrev server : Submit
server = record {
  now = 100000;
  new_id = 200;
  hash = λ c to body. to ++ body;
  prefixes = none;
  default_ttl_ms = 600000;
  finds = true;
  creates = true;
  others = λ db. db;
}

abbrev hello_req : SubmitReq
hello_req = record {
  to = codes "081212345678";
  message = codes "hi";
  dedup_key = codes "k1";
  ttl_seconds = pos 0;
  routing_policy = [];
  callback_url = [];
}

first_time : submit_message server 7 hello_req fleet_db ≡ (
  Reply.accepted 200 Operator.telkomsel Encoding.gsm7 1 700000,
  (submit_message server 7 hello_req fleet_db).1,
)
unfolding submit_message normalize_msisdn policy_of detect_operator analyze default_prefixes
first_time = refl

submit_message_retry_example :
    submit_message
      (record server { new_id = 201; now = 100500 })
      7
      hello_req
      (submit_message server 7 hello_req fleet_db).1
    ≡ (Reply.replay 200 MessageStatus.queued, (submit_message server 7 hello_req fleet_db).1)
submit_message_retry_example =
    submit_message_retry server (record server { new_id = 201; now = 100500 }) 7 hello_req fleet_db
      first_time refl refl (λ to. refl)

submit_message-IsDeduped_example : IsDeduped (submit_message server 7 hello_req fleet_db).1.messages
submit_message-IsDeduped_example =
    submit_message-IsDeduped server 7 hello_req fleet_db (λ db d. d) (refl, tt)

-- A submission with the first time to live that wraps.
abbrev long_req : SubmitReq
long_req = record hello_req { ttl_seconds = pos 9223372037 }

submit_message-Expires_example :
    Stores (ExpiresFor server (pos 9223372037)) (submit_message server 7 long_req fleet_db)
submit_message-Expires_example = submit_message-Expires server 7 long_req fleet_db

abc_def : IsToken (codes "abc") (codes "d.f")
abc_def = record { no_dot = refl; some_id = refl; some_secret = refl }

abbrev plain : Crypto
plain = record { verify = text_eq; open_secret = λ s. some s; hmac = λ key signed. key }

abbrev shop : Client
shop = record {
  id = 7;
  name = [];
  active = true;
  webhook_secret_enc = [];
  updated_at = 0;
  deleted = false;
}

abbrev shop_key : ApiKey
shop_key = record {
  id = 70;
  client_id = 7;
  prefix = codes "abc";
  hash = codes "def";
  scopes = codes "read, send";
  signing_secret_enc = [];
  active = true;
  last_used_at = none;
  updated_at = 0;
  deleted = false;
}

abbrev shop_db : Db
shop_db = record fleet_db { clients = shop ∷ []; keys = shop_key ∷ [] }

abbrev shop_request : Request
shop_request = record {
  authorization = codes "Bearer wsms_abc.def";
  signature = [];
  timestamp = [];
  body = [];
}

passes : (client_auth plain 1764000000 (codes "send") shop_request shop_db).0 ≡ AuthResult.client 7
unfolding client_auth parse_bearer has_scope verify_signing
passes = refl

client_auth-Authorized_example : Authorized plain 1764000000 (codes "send") shop_request shop_db 7
client_auth-Authorized_example =
    client_auth-Authorized plain 1764000000 (codes "send") shop_request shop_db passes

-- A limiter that lets two calls through.
abbrev pair : Limiter ℕ
pair = record { fresh = 2; allows = λ now left. (ltb 0 left, left - 1) }

abbrev calls : List (ℕ × ℕ)
calls = (10, 3) ∷ (11, 4) ∷ (12, 3) ∷ (13, 4) ∷ (14, 3) ∷ []

serve_all-alone_example : answers_to 3 (serve_all pair calls []) ≡ alone pair 3 calls 2
serve_all-alone_example = serve_all-alone pair 3 calls
