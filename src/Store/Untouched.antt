-- ===== src/Store/Untouched.antt =====
-- Which tables the bootstraps (server/internal/store/store.go) leave alone.
use wsms_gateway.Base.{◌≡◌, refl, none, some, Option, Bool-cases, inl, inr, any, not, ◌&&◌, ltb}
use wsms_gateway.Models.Records.{Text, Client, EnrollmentToken, Db}
use wsms_gateway.Store.{
  Boot, with_secret, prefix_of, store_client, store_token, bootstrap_client, bootstrap_enrollment,
}

-- The messages and the fleet, and the tables that the engine reads.
abbrev pub Alone : Db → Db → Type 0
Alone db after =
    (after.messages ≡ db.messages)
    × (after.devices ≡ db.devices)
    × (after.sims ≡ db.sims)
    × (after.prefixes ≡ db.prefixes)
    × (after.settings ≡ db.settings)

store_client-Alone :
    (b : Boot) (p s : Text) (hash : Option Text) (db : Db) → Alone db (store_client b p s hash db).1
unfolding store_client
store_client-Alone b p s none db = (refl, refl, refl, refl, refl)
store_client-Alone b p s (some hash) db = elim (Bool-cases (b.stores 0)) [
  | inr bad ↦ rw bad (refl, refl, refl, refl, refl)
  | inl good ↦ elim (Bool-cases (b.stores 1)) [
    | inl key ↦ rw (good, key) (refl, refl, refl, refl, refl)
    | inr key ↦ rw (good, key) (refl, refl, refl, refl, refl)
  ]
]

with_secret-Alone :
    (b : Boot) (p : Text) (s : Option Text) (db : Db) → Alone db (with_secret b p s db).1
unfolding with_secret
with_secret-Alone b p none db = (refl, refl, refl, refl, refl)
with_secret-Alone b p (some s) db = store_client-Alone b p s (b.hash s) db

pub bootstrap_client-Alone : (b : Boot) (db : Db) → Alone db (bootstrap_client b db).1
unfolding bootstrap_client
bootstrap_client-Alone b db = elim (Bool-cases b.counts) [
  | inr down ↦ rw down (refl, refl, refl, refl, refl)
  | inl up ↦ elim (Bool-cases (any (λ (c : Client). not c.deleted) db.clients)) [
    | inl there ↦ rw (up, there) (refl, refl, refl, refl, refl)
    | inr new ↦ rw (up, new) (with_secret-Alone b (prefix_of (b.random 0)) (b.random 1) db)
  ]
]

store_token-Alone : (b : Boot) (s : Option Text) (db : Db) → Alone db (store_token b s db).1
unfolding store_token
store_token-Alone b none db = (refl, refl, refl, refl, refl)
store_token-Alone b (some s) db = elim (Bool-cases (b.stores 0)) [
  | inl good ↦ rw good (refl, refl, refl, refl, refl)
  | inr bad ↦ rw bad (refl, refl, refl, refl, refl)
]

pub bootstrap_enrollment-Alone : (b : Boot) (db : Db) → Alone db (bootstrap_enrollment b db).1
unfolding bootstrap_enrollment
bootstrap_enrollment-Alone b db = elim (Bool-cases b.counts) [
  | inr down ↦ rw down (refl, refl, refl, refl, refl)
  | inl up ↦
      elim (Bool-cases
        (any (λ (t : EnrollmentToken). not t.used && ltb b.now t.expires_at) db.tokens)) [
          | inl there ↦ rw (up, there) (refl, refl, refl, refl, refl)
          | inr new ↦ rw (up, new) (store_token-Alone b (b.random 0) db)
        ]
]
