-- ===== src/Admin/Tests/Signing.antt =====
-- Request signing in the console, at a key of the shop.
use wsms_gateway.Base.{◌≡◌, refl, true, false, none, some, [], ◌∷◌, ◌++◌, arith, if◌then◌else◌}
use wsms_gateway.Models.Records.{ApiKey, WebhookDelivery, DeliveryStatus}
use wsms_gateway.Samples.{otp}
use wsms_gateway.Webhook.Delivery.{Net, callback_of}
use wsms_gateway.Webhook.Delivery as Delivery
use wsms_gateway.Text.{codes}
use wsms_gateway.Secret.Sealed.{Aead, seal, open_blob}
use wsms_gateway.Api.Auth.{Crypto, Request, AuthResult, client_auth, has_scope, parse_int}
use wsms_gateway.Admin.Console.{FlashKind, FlashItem, Console, ConsoleEnv, Answer}
use wsms_gateway.Admin.Flash.{put_flash, pop_flash}
use wsms_gateway.Admin.Keys.{enable_key_signing, rotate_webhook_secret}
use wsms_gateway.Admin.Keys.Callbacks.{rotate_webhook_secret-callback_of}
use wsms_gateway.Admin.Keys.Signing.{signs, enable_key_signing-client_auth}
use wsms_gateway.Admin.Tests.{desk, root, console, plain, call}

-- A cipher that keeps the text.
abbrev open_cipher : Aead
open_cipher = record {
  nonce_size = 2;
  seal_text = λ key nonce text. text;
  open_text = λ key nonce text. some text;
}

abbrev till : ApiKey
till = record {
  id = 30;
  client_id = 7;
  prefix = codes "ax";
  hash = codes "gx";
  scopes = codes "send";
  signing_secret_enc = [];
  active = true;
  last_used_at = none;
  updated_at = 0;
  deleted = false;
}

abbrev keyed : Console
keyed = record console { db = record console.db { keys = till ∷ [] } }

abbrev sealing : ConsoleEnv
sealing = record desk {
  seal = λ s. seal open_cipher (codes "0123456789abcdef0123456789abcdef") (some (codes "nn")) s;
}

abbrev opening : Crypto
opening = record plain {
  open_secret = λ b. open_blob open_cipher (codes "0123456789abcdef0123456789abcdef") b;
}

abbrev signing_on : Console
signing_on = (enable_key_signing sealing root 30 keyed).1

-- A call that carries the signature of the toy HMAC, which is the key.
abbrev signed_call : Request
signed_call = record call {
  signature = codes "sha256=ax";
  timestamp = codes "1764000000";
  body = codes "hello";
}

abbrev revealed_secret : FlashItem
revealed_secret = record {
  id = codes "bx";
  kind = FlashKind.signing;
  label = codes "wsms_ax";
  secret = codes "ax";
  expires = 280000;
}

revealing : (enable_key_signing sealing root 30 keyed).0 ≡ Answer.revealed (codes "bx")
unfolding enable_key_signing seal
revealing = refl

shows : (pop_flash 100001 (codes "bx") signing_on.flashes).0 ≡ some revealed_secret
unfolding enable_key_signing seal put_flash pop_flash
shows = refl

accepts_signature : signs opening 1764000000 signed_call (codes "ax") ≡ true
unfolding parse_int
accepts_signature = refl

enable_key_signing-client_auth_example :
    (client_auth opening 1764000000 (codes "send") signed_call signing_on.db).0 ≡ (
      if signs opening 1764000000 signed_call (codes "ax")
      then AuthResult.client 7
      else AuthResult.denied 401)
unfolding has_scope
enable_key_signing-client_auth_example =
    enable_key_signing-client_auth sealing root keyed (codes "bx") revealed_secret 100001 opening
      open_cipher (codes "0123456789abcdef0123456789abcdef") (codes "nn") 1764000000 (codes "send")
      signed_call (codes "ax") (codes "gx") till
      (record {
        seals = λ p. refl;
        opens = λ b. refl;
        inverse = λ n p. refl;
        sized = refl;
        filled = omega arith;
      })
      revealing shows (record { no_dot = refl; some_id = refl; some_secret = refl }) refl refl refl
      refl refl

abbrev hook_call : WebhookDelivery
hook_call = record {
  id = 1;
  message_id = 100;
  client_id = 7;
  url = codes "https://shop";
  event = otp.status;
  status = DeliveryStatus.pending;
  attempts = 0;
  max_attempts = 6;
  last_code = 0;
  last_error = [];
  next_attempt_at = 0;
  delivered_at = none;
  updated_at = 0;
}

abbrev post_office : Net
post_office = record {
  now = 200000;
  encode = λ p. p.status;
  open_secret = opening.open_secret;
  hmac = λ key s. key ++ s;
  bad_url = λ u. none;
  answers = λ c. Delivery.Answer.code 200;
}

rotating : (rotate_webhook_secret sealing root 7 console).0 ≡ Answer.revealed (codes "bx")
unfolding rotate_webhook_secret seal
rotating = refl

abbrev shown_hook : FlashItem
shown_hook = record {
  id = codes "bx";
  kind = FlashKind.webhook;
  label = codes "shop";
  secret = codes "ax";
  expires = 280000;
}

shows_hook :
    (pop_flash 100001 (codes "bx") (rotate_webhook_secret sealing root 7 console).1.flashes).0
    ≡ some shown_hook
unfolding rotate_webhook_secret seal put_flash pop_flash
shows_hook = refl

rotate_webhook_secret-callback_of_example :
    let sent =
      callback_of post_office hook_call otp (rotate_webhook_secret sealing root 7 console).1.db in
    sent.signature
    ≡ some (codes "sha256=" ++ (codes "ax" ++ (sent.timestamp ++ codes "." ++ sent.body)))
rotate_webhook_secret-callback_of_example =
    rotate_webhook_secret-callback_of sealing root console (codes "bx") shown_hook 100001
      post_office open_cipher (codes "0123456789abcdef0123456789abcdef") (codes "nn") hook_call otp
      (record {
        seals = λ p. refl;
        opens = λ b. refl;
        inverse = λ n p. refl;
        sized = refl;
        filled = omega arith;
      })
      rotating shows_hook
