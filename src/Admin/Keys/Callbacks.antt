-- ===== src/Admin/Keys/Callbacks.antt =====
-- Signed callbacks: the webhook secret that rotateWebhookSecret (server/internal/admin/handlers.go)
-- shows, and the requests that deliverOne (server/internal/webhook/webhook.go) makes with it.
use wsms_gateway.Base.{
  ℕ, ◌≡◌, refl, ◌∙◌, true, not, ◌&&◌, ◌==◌, some, List, ◌++◌, first, first-update_where,
  update_where, Option-cases, Bool-cases, inl, inr, arith, ==_refl, first_sound,
}
use wsms_gateway.Models.Records.{Text, Client, Message, WebhookDelivery}
use wsms_gateway.Text.{codes}
use wsms_gateway.Secret.Sealed.{Aead}
use wsms_gateway.Admin.Console.{FlashKind, FlashItem, Console, ConsoleEnv, User, Answer}
use wsms_gateway.Admin.Access.{find_client}
use wsms_gateway.Admin.Flash.{pop_flash}
use wsms_gateway.Admin.Flash.Once.{pop_flash-secret}
use wsms_gateway.Admin.Keys.{seal_webhook, rotate_webhook_secret}
use wsms_gateway.Admin.Keys.Shared.{SharesKey, opened-sealed}
use wsms_gateway.Webhook.Delivery
use wsms_gateway.Webhook.Delivery.{Net, sign, callback_of, payload_of}

abbrev with_webhook : ConsoleEnv → Text → Client → Client
with_webhook e enc k = record k { webhook_secret_enc = enc; updated_at = e.now }

-- What `rotateWebhookSecret` leaves where it shows a secret.
record Rotated (e : ConsoleEnv) (id : ℕ) (c d : Console) : Type 0 where
  enc : Text
  client : Client
  sealed : e.seal (e.token 0) ≡ some enc
  stored : Delivery.find_client id d.db ≡ some (with_webhook e enc client)
  shown :
      (t : ℕ) (item : FlashItem)
      → (pop_flash t (e.token 1) d.flashes).0 ≡ some item
      → item.secret ≡ e.token 0

find_rotated :
    (e : ConsoleEnv) (enc : Text) (id : ℕ) (cl : Client) (xs : List Client)
    → first (λ (k : Client). k.id == id && not k.deleted) xs ≡ some cl
    → first
        (λ (k : Client). k.id == id && not k.deleted)
        (update_where (λ (k : Client). k.id == cl.id && not k.deleted) (with_webhook e enc) xs)
      ≡ some (with_webhook e enc cl)
find_rotated e enc id cl xs h =
    let met = first_sound (λ (k : Client). k.id == id && not k.deleted) xs h in
    let mine : (cl.id == cl.id && not cl.deleted) ≡ true = ground (arith, ==_refl cl.id) in
    first-update_where (λ (k : Client). k.id == id && not k.deleted)
      (λ (k : Client). k.id == cl.id && not k.deleted) (with_webhook e enc) xs (λ k. refl)
    ∙ rw (h, mine) refl

rotate_webhook_secret-Rotated :
    (e : ConsoleEnv) (u : User) (id : ℕ) (c : Console) (flash : Text)
    → (rotate_webhook_secret e u id c).0 ≡ Answer.revealed flash
    → Rotated e id c (rotate_webhook_secret e u id c).1 × (e.token 1 ≡ flash)
unfolding rotate_webhook_secret seal_webhook
rotate_webhook_secret-Rotated e u id c flash h = elim (Option-cases (find_client id c.db)) [
  | inl q ↦ absurd (cc (rw (q, rotate_webhook_secret) at h))
  | inr (cl, q) ↦ elim (Option-cases (e.seal (e.token 0))) [
    | inl s ↦ absurd (cc (rw (q, rotate_webhook_secret, s) at h))
    | inr (enc, s) ↦ elim (Bool-cases (e.stores 0)) [
      | inr b ↦ absurd (cc (rw (q, rotate_webhook_secret, s, b) at h))
      | inl b ↦ (
        record {
          enc = enc;
          client = cl;
          sealed = s;
          stored = rw (q, rotate_webhook_secret, s, b) (find_rotated e enc id cl c.db.clients q);
          shown = λ t item p.
              pop_flash-secret e.now t (e.token 1) FlashKind.webhook _ (e.token 0) c.flashes item
                (rw (q, rotate_webhook_secret, s, b) at p);
        },
        revealed_only (rw (q, rotate_webhook_secret, s, b) at h),
      )
    ]
  ]
]
  where
    revealed_only : {t s : Text} → Answer.revealed t ≡ Answer.revealed s → t ≡ s
    revealed_only z = cc

-- Once rotateWebhookSecret shows a secret, a callback for that client, of whatever delivery and
-- message, carries the HMAC of its time stamp and its body under the shown secret, in the form that a
-- client checks. This takes that the console and the webhook worker share the master key of an
-- AES-GCM that opens what it sealed.
pub rotate_webhook_secret-callback_of :
    (e : ConsoleEnv) (u : User) (c : Console) (flash : Text) (item : FlashItem) (t : ℕ) (net : Net)
    (lib : Aead) (master nonce : Text) (wd : WebhookDelivery) (msg : Message)
    → SharesKey e net.open_secret lib master nonce
    → (rotate_webhook_secret e u wd.client_id c).0 ≡ Answer.revealed flash
    → (pop_flash t flash (rotate_webhook_secret e u wd.client_id c).1.flashes).0 ≡ some item
    → let sent = callback_of net wd msg (rotate_webhook_secret e u wd.client_id c).1.db in
      sent.signature
      ≡ some (codes "sha256=" ++ net.hmac item.secret (sent.timestamp ++ codes "." ++ sent.body))
unfolding callback_of sign
rotate_webhook_secret-callback_of e u c flash item t net lib master nonce wd msg shares done
      popped =
    let (m, named) = rotate_webhook_secret-Rotated e u wd.client_id c flash done in
    let shown = m.shown t item (rw (← named) at popped) in
    let (opened, filled) =
      opened-sealed e net.open_secret lib master nonce shares (e.token 0) m.enc m.sealed in
    rw (m.stored, sign, filled, opened, shown) refl
