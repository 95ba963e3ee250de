-- ===== src/Api/Auth/Denied.antt =====
-- What `clientAuth` (server/internal/api/auth.go) leaves of the tables.
use wsms_gateway.Base.{ℕ, ◌≡◌, refl, ◌⊎◌, inl, inr, some, Option-cases, Bool-cases}
use wsms_gateway.Models.Records.{Text, ApiKey, Db}
use wsms_gateway.Api.Auth.{
  Crypto, Request, AuthResult, parse_bearer, has_scope, verify_signing, find_key, client_active,
  touch_key, check_key, check_bearer, client_auth,
}

-- Denied with 401 or 403 and nothing changed; or the messages, clients and devices as they were.
pub data Leaves (db : Db) : AuthResult → Db → Type 0 where
  denied_as : (code : ℕ) → (code ≡ 401) ⊎ (code ≡ 403) → Leaves db (AuthResult.denied code) db
  passed_as :
      (client : ℕ) (after : Db)
      → after.messages ≡ db.messages
      → Leaves db (AuthResult.client client) after

check_key-Leaves :
    (x : Crypto) (now : ℕ) (scope : Text) (r : Request) (db : Db) (sec : Text) (key : ApiKey)
    → Leaves db
        (check_key x now scope r db sec (some key)).0
        (check_key x now scope r db sec (some key)).1
unfolding check_key
check_key-Leaves x now scope r db sec key = elim (Bool-cases (x.verify sec key.hash)) [
  | inr bad ↦ rw bad (Leaves.denied_as 401 (inl refl))
  | inl v ↦ elim (Bool-cases (client_active db key.client_id)) [
    | inr bad ↦ rw (v, bad) (Leaves.denied_as 401 (inl refl))
    | inl a ↦ elim (Bool-cases (has_scope key.scopes scope)) [
      | inr bad ↦ rw (v, a, bad) (Leaves.denied_as 403 (inr refl))
      | inl s ↦ elim (Bool-cases (verify_signing x now r key)) [
        | inr bad ↦ rw (v, a, s, bad) (Leaves.denied_as 401 (inl refl))
        | inl g ↦
            rw (v, a, s, g)
              (Leaves.passed_as key.client_id (touch_key now key db) (unfold touch_key in refl))
      ]
    ]
  ]
]

pub client_auth-Leaves :
    (x : Crypto) (now : ℕ) (scope : Text) (r : Request) (db : Db)
    → Leaves db (client_auth x now scope r db).0 (client_auth x now scope r db).1
unfolding client_auth check_bearer
client_auth-Leaves x now scope r db = elim (Option-cases (parse_bearer r.authorization)) [
  | inl none_sent ↦ rw (none_sent, client_auth, check_bearer) (Leaves.denied_as 401 (inl refl))
  | inr ((p, sec), sent) ↦ elim (Option-cases (find_key db p)) [
    | inl unknown ↦
        unfold check_key in
        rw (sent, client_auth, check_bearer, unknown, check_key) (Leaves.denied_as 401 (inl refl))
    | inr (key, found) ↦
        rw (sent, client_auth, check_bearer, found) (check_key-Leaves x now scope r db sec key)
  ]
]
