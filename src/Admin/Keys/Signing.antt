-- ===== src/Admin/Keys/Signing.antt =====
-- Request signing: what enableKeySigning (server/internal/admin/handlers.go) demands of the requests
-- that clientAuth (server/internal/api/auth.go) reads, with the seal of server/internal/secret.

use wsms_gateway.Base.{
  ℕ, ◌≡◌, refl, sym, ap, ◌∙◌, Bool, true, false, not, ◌&&◌, ◌==◌, some, List, ◌++◌, any, first,
  first-update_where, update_where, Option-cases, Bool-cases, inl, inr, arith, ==_refl, first_sound,
  if◌then◌else◌,
}
use wsms_gateway.Models.Records.{Text, is_empty, ApiKey, Client}
use wsms_gateway.Text.{codes, text_eq}
use wsms_gateway.Secret.Sealed.{Aead}
use wsms_gateway.Api.Auth.{
  Crypto, Request, AuthResult, trim_prefix, timely, parse_int, has_scope, verify_signing, find_key,
  client_active, client_auth,
}
use wsms_gateway.Api.Auth.Bearer.{IsToken}
use wsms_gateway.Admin.Console.{FlashKind, FlashItem, Console, ConsoleEnv, User, Answer}
use wsms_gateway.Admin.Flash.{pop_flash}
use wsms_gateway.Admin.Flash.Once.{pop_flash-secret}
use wsms_gateway.Admin.Keys.{token_of, seal_signing, enable_key_signing}
use wsms_gateway.Admin.Keys.Shared.{SharesKey, opened-sealed}
use wsms_gateway.Admin.Keys.Accepted.{Sends, is_live, lets_through, denied_unsigned}

-- A signature of the time stamp and the body under a secret, with a time stamp that is current.
abbrev pub signs : Crypto → ℕ → Request → Text → Bool
signs x now r secret =
    not (is_empty r.signature)
    && (not (is_empty r.timestamp)
        && (timely now (parse_int r.timestamp)
            && text_eq (x.hmac secret (r.timestamp ++ (codes "." ++ r.body)))
                (trim_prefix r.signature (codes "sha256="))))

signing_of :
    (x : Crypto) (now : ℕ) (r : Request) (key : ApiKey) (secret : Text)
    → is_empty key.signing_secret_enc ≡ false
    → x.open_secret key.signing_secret_enc ≡ some secret
    → verify_signing x now r key ≡ signs x now r secret
unfolding verify_signing
signing_of x now r key secret filled opened = rw (filled, opened) (ground arith)

abbrev with_signing : ConsoleEnv → Text → ApiKey → ApiKey
with_signing e enc k = record k { signing_secret_enc = enc; updated_at = e.now }

-- What `enableKeySigning` leaves where it shows a secret.
record Enabled (e : ConsoleEnv) (id : ℕ) (c d : Console) : Type 0 where
  enc : Text
  sealed : e.seal (e.token 0) ≡ some enc
  keys :
      d.db.keys
      ≡ update_where (λ (k : ApiKey). k.id == id && not k.deleted) (with_signing e enc) c.db.keys
  clients : d.db.clients ≡ c.db.clients
  shown :
      (t : ℕ) (item : FlashItem)
      → (pop_flash t (e.token 1) d.flashes).0 ≡ some item
      → item.secret ≡ e.token 0

enable_key_signing-Enabled :
    (e : ConsoleEnv) (u : User) (id : ℕ) (c : Console) (flash : Text)
    → (enable_key_signing e u id c).0 ≡ Answer.revealed flash
    → Enabled e id c (enable_key_signing e u id c).1 × (e.token 1 ≡ flash)
unfolding enable_key_signing seal_signing
enable_key_signing-Enabled e u id c flash h =
    elim (Option-cases (first (λ (k : ApiKey). k.id == id && not k.deleted) c.db.keys)) [
      | inl q ↦ absurd (cc (rw (q, enable_key_signing) at h))
      | inr (key, q) ↦ elim (Option-cases (e.seal (e.token 0))) [
        | inl s ↦ absurd (cc (rw (q, enable_key_signing, s) at h))
        | inr (enc, s) ↦ elim (Bool-cases (e.stores 0)) [
          | inr b ↦ absurd (cc (rw (q, enable_key_signing, s, b) at h))
          | inl b ↦
              let met = first_sound (λ (k : ApiKey). k.id == id && not k.deleted) c.db.keys q in
              let named : key.id ≡ id = ground arith in
              (
                record {
                  enc = enc;
                  sealed = s;
                  keys = rw (q, enable_key_signing, s, b, named) refl;
                  clients = rw (q, enable_key_signing, s, b) refl;
                  shown = λ t item p.
                      pop_flash-secret e.now t (e.token 1) FlashKind.signing _ (e.token 0) c.flashes
                        item (rw (q, enable_key_signing, s, b) at p);
                },
                revealed_only (rw (q, enable_key_signing, s, b) at h),
              )
        ]
      ]
    ]
  where
    revealed_only : {t s : Text} → Answer.revealed t ≡ Answer.revealed s → t ≡ s
    revealed_only z = cc

-- The key of a prefix, after signing is switched on for it.
find_signing :
    (e : ConsoleEnv) (enc prefix : Text) (key : ApiKey) (xs : List ApiKey)
    → first (is_live prefix) xs ≡ some key
    → first
        (is_live prefix)
        (update_where (λ (k : ApiKey). k.id == key.id && not k.deleted) (with_signing e enc) xs)
      ≡ some (with_signing e enc key)
find_signing e enc prefix key xs h =
    let met = first_sound (is_live prefix) xs h in
    let mine : (key.id == key.id && not key.deleted) ≡ true = ground (arith, ==_refl key.id) in
    first-update_where (is_live prefix) (λ (k : ApiKey). k.id == key.id && not k.deleted)
      (with_signing e enc) xs (λ k. refl)
    ∙ rw (h, mine) refl

-- Once enableKeySigning shows a secret for a key, clientAuth lets a request with the token of the key
-- through exactly if it is signed with that secret at a current time, and denies it with 401
-- otherwise. This takes that the secret of the token verifies, that the client is active and the scope
-- granted, and that console and clientAuth share the master key of an AES-GCM that opens what it sealed.
pub enable_key_signing-client_auth :
    (e : ConsoleEnv) (u : User) (c : Console) (flash : Text) (item : FlashItem) (t : ℕ) (x : Crypto)
    (lib : Aead) (master nonce : Text) (now : ℕ) (scope : Text) (r : Request) (prefix secret : Text)
    (key : ApiKey)
    → SharesKey e x.open_secret lib master nonce
    → (enable_key_signing e u key.id c).0 ≡ Answer.revealed flash
    → (pop_flash t flash (enable_key_signing e u key.id c).1.flashes).0 ≡ some item
    → IsToken prefix secret
    → Sends r (token_of prefix secret)
    → find_key c.db prefix ≡ some key
    → x.verify secret key.hash ≡ true
    → client_active c.db key.client_id ≡ true
    → has_scope key.scopes scope ≡ true
    → (client_auth x now scope r (enable_key_signing e u key.id c).1.db).0 ≡ (
        if signs x now r item.secret
        then AuthResult.client key.client_id
        else AuthResult.denied 401)
enable_key_signing-client_auth e u c flash item t x lib master nonce now scope r prefix secret key
      shares done popped token sends found verified active scoped =
    let (m, named) = enable_key_signing-Enabled e u key.id c flash done in
    let shown = m.shown t item (rw (← named) at popped) in
    let (opened, filled) =
      opened-sealed e x.open_secret lib master nonce shares (e.token 0) m.enc m.sealed in
    let key' = with_signing e m.enc key in
    let found' : find_key (enable_key_signing e u key.id c).1.db prefix ≡ some key' =
      ap (first (is_live prefix)) m.keys ∙ find_signing e m.enc prefix key c.db.keys found in
    let active' : client_active (enable_key_signing e u key.id c).1.db key.client_id ≡ true =
      ap (any (λ (y : Client). y.id == key.client_id && (y.active && not y.deleted))) m.clients
      ∙ active in
    let judged = signing_of x now r key' (e.token 0) filled opened in
    elim (Bool-cases (signs x now r item.secret)) [
      | inl good ↦ rw good (
          lets_through x now scope r prefix secret token sends _ key' found' verified active' scoped
            (judged ∙ ap (signs x now r) (sym shown) ∙ good))
      | inr bad ↦ rw bad (
          denied_unsigned x now scope r prefix secret token sends _ key' found' verified active'
            scoped (judged ∙ ap (signs x now r) (sym shown) ∙ bad))
    ]
