-- ===== src/Api/Auth/Guards.antt =====
-- What a client that `clientAuth` (server/internal/api/auth.go) lets through has shown.
use wsms_gateway.Base.{
  ℕ, ◌≡◌, true, false, some, arith, first_sound, first-In, In, Option-cases, Bool-cases, inl, inr,
}
use wsms_gateway.Models.Records.{Text, ApiKey, Db}
use wsms_gateway.Text.{text_eq}
use wsms_gateway.Api.Auth.{
  Crypto, Request, AuthResult, parse_bearer, has_scope, verify_signing, find_key, client_active,
  check_key, check_bearer, client_auth,
}

-- The key behind a request: active, of the prefix that was sent with a secret that it verifies, of
-- an active client, with the scope, and with a signature where it signs.
pub record Authorized (x : Crypto) (now : ℕ) (scope : Text) (r : Request) (db : Db) (client : ℕ)
    : Type 0 where
  pub key : ApiKey
  pub prefix : Text
  pub secret : Text
  pub parsed : parse_bearer r.authorization ≡ some (prefix, secret)
  pub row : In key db.keys
  pub named : text_eq key.prefix prefix ≡ true
  pub active : key.active ≡ true
  pub live : key.deleted ≡ false
  pub verified : x.verify secret key.hash ≡ true
  pub owner : key.client_id ≡ client
  pub client_live : client_active db key.client_id ≡ true
  pub scoped : has_scope key.scopes scope ≡ true
  pub signed : verify_signing x now r key ≡ true

module _ {client : ℕ} where
  denied_only : {n : ℕ} → AuthResult.denied n ≡ AuthResult.client client → ⊥
  denied_only q = cc

  client_only : {c : ℕ} → AuthResult.client c ≡ AuthResult.client client → c ≡ client
  client_only q = cc

  check_key_sound :
      (x : Crypto) (now : ℕ) (scope : Text) (r : Request) (db : Db) (sec : Text) (key : ApiKey)
      → (check_key x now scope r db sec (some key)).0 ≡ AuthResult.client client
      → (x.verify sec key.hash ≡ true)
        × (client_active db key.client_id ≡ true)
        × (has_scope key.scopes scope ≡ true)
        × (verify_signing x now r key ≡ true)
        × (key.client_id ≡ client)
  unfolding check_key
  check_key_sound x now scope r db sec key h = elim (Bool-cases (x.verify sec key.hash)) [
    | inr bad ↦ absurd (denied_only (rw bad at h))
    | inl v ↦ elim (Bool-cases (client_active db key.client_id)) [
      | inr bad ↦ absurd (denied_only (rw (v, bad) at h))
      | inl a ↦ elim (Bool-cases (has_scope key.scopes scope)) [
        | inr bad ↦ absurd (denied_only (rw (v, a, bad) at h))
        | inl s ↦ elim (Bool-cases (verify_signing x now r key)) [
          | inr bad ↦ absurd (denied_only (rw (v, a, s, bad) at h))
          | inl g ↦ (v, a, s, g, client_only (rw (v, a, s, g) at h))
        ]
      ]
    ]
  ]

  -- A request that passes is backed by such a key, and the client is the key's.
  pub client_auth-Authorized :
      (x : Crypto) (now : ℕ) (scope : Text) (r : Request) (db : Db)
      → (client_auth x now scope r db).0 ≡ AuthResult.client client
      → Authorized x now scope r db client
  unfolding client_auth check_bearer
  client_auth-Authorized x now scope r db h = elim (Option-cases (parse_bearer r.authorization)) [
    | inl none_sent ↦ absurd (denied_only (rw (none_sent, client_auth, check_bearer) at h))
    | inr ((p, sec), sent) ↦ elim (Option-cases (find_key db p)) [
      | inl unknown ↦ absurd (
          denied_only
            (unfold check_key in rw (sent, client_auth, check_bearer, unknown, check_key) at h))
      | inr (key, found) ↦
          let (v, a, s, g, o) =
            check_key_sound x now scope r db sec key
              (rw (sent, client_auth, check_bearer, found) at h) in
          let ok = first_sound _ db.keys found in
          record {
            key = key;
            prefix = p;
            secret = sec;
            parsed = sent;
            row = first-In _ key db.keys found;
            named = ground arith;
            active = ground arith;
            live = ground arith;
            verified = v;
            owner = o;
            client_live = a;
            scoped = s;
            signed = g;
          }
    ]
  ]
