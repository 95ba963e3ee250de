-- ===== src/Store/Bootstrap.antt =====
-- The default client of a first start (server/internal/store/store.go).
use wsms_gateway.Base.{
  ℕ, ◌/◌, ◌%◌, ◌≡◌, refl, sym, ap, subst, ◌∙◌, Bool, true, false, not, ◌&&◌, ◌||◌, ◌==◌, ==_refl,
  any-append, Option, none, some, [], ◌∷◌, ◌++◌, any, first-append_none, Bool-cases, inl, inr,
  arith, if◌then◌else◌,
}
use wsms_gateway.Models.Records.{Text, is_empty, Client, ApiKey, Db}
use wsms_gateway.Text.{codes, cut, text_eq}
use wsms_gateway.Text.Laws.{text_eq_refl}
use wsms_gateway.Api.Auth.{
  Crypto, Request, AuthResult, bearer, has_scope, verify_signing, find_key, client_auth,
}
use wsms_gateway.Admin.Keys.{token_of}
use wsms_gateway.Admin.Keys.Accepted.{Sends, lets_through}
use wsms_gateway.Text.Hex.{hex, hex_digit}
use wsms_gateway.Store.{
  Boot, Started, fill, prefix_of, all_scopes, default_client, first_key, store_client, with_secret,
  bootstrap_client,
}

digit_no_dot : (n : ℕ) → (hex_digit n == b'.') ≡ false
unfolding hex_digit
digit_no_dot n = ground arith

cut-hex : (s : Text) → cut b'.' (hex s) ≡ none
unfolding hex
cut-hex [] = refl
cut-hex (c ∷ s) = rw (digit_no_dot (c / 16 % 16), digit_no_dot (c % 16), cut-hex s) refl

prefix_of-filled : (o : Option Text) → is_empty (prefix_of o) ≡ false
unfolding prefix_of fill hex
prefix_of-filled none = refl
prefix_of-filled (some []) = refl
prefix_of-filled (some (c ∷ s)) = refl

cut-prefix_of : (o : Option Text) → cut b'.' (prefix_of o) ≡ none
unfolding prefix_of
cut-prefix_of none = cut-hex (fill 4 [])
cut-prefix_of (some s) = cut-hex (fill 4 s)

grants_all : (scope : Text) → has_scope all_scopes scope ≡ true
unfolding has_scope
grants_all scope =
    let is = λ (want : Text). text_eq want scope in
    deeper (is (codes "messages:write")) _ (
      deeper (is (codes "messages:read")) _ (
        deeper (is (codes "devices:read")) _
          (deeper (is (codes "sims:read")) _ (last (is (codes "admin"))))))
  where
    deeper : (a b : Bool) → b ≡ true → (a || false || b) ≡ true
    deeper a b h = ground arith

    last : (a : Bool) → (a || true || false) ≡ true
    last a = ground arith

-- The rows of the default client and its key.
abbrev with_first : Boot → Text → Text → Db → Db
with_first b prefix hash db = record db {
  clients = db.clients ++ default_client b ∷ [];
  keys = db.keys ++ first_key b prefix hash ∷ [];
}

record Began (b : Boot) (token : Text) (db after : Db) : Type 0 where
  secret : Text
  hash : Text
  drawn : b.random 1 ≡ some secret
  hashed : b.hash secret ≡ some hash
  shown : token ≡ token_of (prefix_of (b.random 0)) secret
  rows : after ≡ with_first b (prefix_of (b.random 0)) hash db

store_client_made :
    (b : Boot) (prefix sec token : Text) (o : Option Text) (db : Db)
    → (store_client b prefix sec o db).0 ≡ Started.created token
    → (hash : Text) × (o ≡ some hash)
      × (token ≡ token_of prefix sec)
      × ((store_client b prefix sec o db).1 ≡ with_first b prefix hash db)
unfolding store_client
store_client_made b prefix sec token none db h = absurd (failed-ne-created h)
  where
    failed-ne-created : {t : Text} → ◌≡◌ {A = Started} Started.failed (Started.created t) → ⊥
    failed-ne-created z = cc
store_client_made b prefix sec token (some hash) db h = elim (Bool-cases (b.stores 0)) [
  | inr none_stored ↦ absurd (failed-ne-created (rw none_stored at h))
  | inl first_stored ↦ elim (Bool-cases (b.stores 1)) [
    | inr none_stored ↦ absurd (failed-ne-created (rw (first_stored, none_stored) at h))
    | inl both_stored ↦ (
      hash,
      refl,
      same (rw (first_stored, both_stored) at h),
      rw (first_stored, both_stored) refl,
    )
  ]
]
  where
    failed-ne-created : {t : Text} → ◌≡◌ {A = Started} Started.failed (Started.created t) → ⊥
    failed-ne-created z = cc

    same : {s t : Text} → Started.created s ≡ Started.created t → t ≡ s
    same z = cc

secret_made :
    (b : Boot) (token : Text) (o : Option Text) (db : Db)
    → o ≡ b.random 1
    → (with_secret b (prefix_of (b.random 0)) o db).0 ≡ Started.created token
    → Began b token db (with_secret b (prefix_of (b.random 0)) o db).1
unfolding with_secret
secret_made b token none db k h = absurd (failed-ne-created h)
  where
    failed-ne-created : {t : Text} → ◌≡◌ {A = Started} Started.failed (Started.created t) → ⊥
    failed-ne-created z = cc
secret_made b token (some sec) db k h =
    let (hash, hashed, shown, rows) =
      store_client_made b (prefix_of (b.random 0)) sec token (b.hash sec) db h in
    record { secret = sec; hash = hash; drawn = sym k; hashed = hashed; shown = shown; rows = rows }

bootstrap_client-Began :
    (b : Boot) (token : Text) (db : Db)
    → (bootstrap_client b db).0 ≡ Started.created token
    → Began b token db (bootstrap_client b db).1
unfolding bootstrap_client
bootstrap_client-Began b token db h = elim (Bool-cases b.counts) [
  | inr unanswered ↦ absurd (failed-ne-created (rw unanswered at h))
  | inl counted ↦ elim (Bool-cases (any (λ (c : Client). not c.deleted) db.clients)) [
    | inl known ↦ absurd (present-ne-created (rw (counted, known) at h))
    | inr new ↦
        subst (λ (p : Started × Db). p.0 ≡ Started.created token → Began b token db p.1)
          (sym (
            ap (λ t. if t then counting else (Started.failed, db)) counted
            ∙ ap (λ t. if t then (Started.present, db) else begun) new))
          (secret_made b token (b.random 1) db refl) h
  ]
]
  where
    begun : Started × Db
    begun = with_secret b (prefix_of (b.random 0)) (b.random 1) db

    counting : Started × Db
    counting =
        if any (λ (c : Client). not c.deleted) db.clients then (Started.present, db) else begun

    failed-ne-created : {t : Text} → ◌≡◌ {A = Started} Started.failed (Started.created t) → ⊥
    failed-ne-created z = cc

    present-ne-created : {t : Text} → ◌≡◌ {A = Started} Started.present (Started.created t) → ⊥
    present-ne-created z = cc

-- The token that BootstrapClient returns lets a request through as the default client, whatever scope
-- the request needs. This takes that the hash of a secret verifies it, that the secret that is drawn
-- is not empty, that no live key has the prefix yet, and that the request sends the token.
pub bootstrap_client-client_auth :
    (b : Boot) (token : Text) (db : Db) (x : Crypto) (now : ℕ) (scope : Text) (r : Request)
    → ((s h : Text) → b.hash s ≡ some h → x.verify s h ≡ true)
    → ((s : Text) → b.random 1 ≡ some s → is_empty s ≡ false)
    → find_key db (prefix_of (b.random 0)) ≡ none
    → (bootstrap_client b db).0 ≡ Started.created token
    → Sends r token
    → (client_auth x now scope r (bootstrap_client b db).1).0 ≡ AuthResult.client (b.new_id 0)
unfolding first_key default_client verify_signing
bootstrap_client-client_auth b token db x now scope r verifies filled free made sends =
    let m = bootstrap_client-Began b token db made in
    let prefix = prefix_of (b.random 0) in
    ap (λ d. (client_auth x now scope r d).0) m.rows
    ∙ lets_through x now scope r prefix m.secret
        (record {
          no_dot = cut-prefix_of (b.random 0);
          some_id = prefix_of-filled (b.random 0);
          some_secret = filled m.secret m.drawn;
        })
        (sends ∙ ap (λ t. bearer ++ t) m.shown) (with_first b prefix m.hash db)
        (first_key b prefix m.hash)
        (first-append_none (λ (k : ApiKey). text_eq k.prefix prefix && (k.active && not k.deleted))
            db.keys _ free
          ∙ rw (text_eq_refl prefix) refl)
        (verifies m.secret m.hash m.hashed)
        (any-append (λ (c : Client). c.id == b.new_id 0 && (c.active && not c.deleted)) db.clients
            (default_client b ∷ [])
          ∙ rw (==_refl (b.new_id 0)) (or_true _))
        (grants_all scope) refl
  where
    or_true : (a : Bool) → (a || true) ≡ true
    or_true true = refl
    or_true false = refl
