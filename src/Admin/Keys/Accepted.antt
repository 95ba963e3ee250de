-- ===== src/Admin/Keys/Accepted.antt =====
-- The token of a new API key: accepted by clientAuth (server/internal/api/auth.go) until the key is
-- revoked, or its client disabled or deleted, in the console.
use wsms_gateway.Base.{
  ℕ, ◌≡◌, refl, sym, ap, ◌∙◌, subst, Bool, true, false, not, ◌&&◌, ◌==◌, none, some, List, [], ◌∷◌,
  ◌++◌, any, first, update_where, Bool-cases, inl, inr, arith, first-append_none, ==_refl,
  first_sound, any-In, first-In,
}
use wsms_gateway.Models.Records.{Text, is_empty, Client, ApiKey, Db}
use wsms_gateway.Text.{text_eq, cut}
use wsms_gateway.Text.Laws.{text_eq_refl}
use wsms_gateway.Api.Auth.{
  Crypto, Request, AuthResult, bearer, parse_bearer, has_scope, verify_signing, find_key,
  client_active, check_key, check_bearer, client_auth,
}
use wsms_gateway.Api.Auth.Bearer.{IsToken, parse_bearer_token}
use wsms_gateway.Admin.Console.{FlashItem, Console, ConsoleEnv, User, Answer}
use wsms_gateway.Admin.Flash.{pop_flash}
use wsms_gateway.Admin.Flash.Once.{pop_named}
use wsms_gateway.Admin.Access.{find_client, on_key, delete_client, toggle_client}
use wsms_gateway.Admin.Keys.{ticked, prefix_taken, token_of, new_key, create_key, revoke_key}
use wsms_gateway.Admin.Keys.Mint.{Minted, create_key-Minted}

abbrev pub is_live : Text → ApiKey → Bool
is_live p k = text_eq k.prefix p && (k.active && not k.deleted)

abbrev is_taken : Text → ApiKey → Bool
is_taken p k = text_eq k.prefix p && not k.deleted

none_live :
    (p : Text) (xs : List ApiKey) → any (is_taken p) xs ≡ false → first (is_live p) xs ≡ none
none_live p [] h = refl
none_live p (x ∷ xs) h = ground (arith, none_live p xs)

none_left :
    (p : Text) (q : ApiKey → Bool) (key : ApiKey) (xs : List ApiKey)
    → any (is_taken p) xs ≡ false
    → q key ≡ true
    → key.deleted ≡ false
    → first (is_live p) (
        update_where
          (λ k. q k && not k.deleted)
          (λ k. record k { deleted = true })
          (xs ++ key ∷ []))
      ≡ none
none_left p q key [] h k l = ground arith
none_left p q key (x ∷ xs) h k l = ground (arith, none_left p q key xs)

-- A token as it is sent.
abbrev pub Sends : Request → Text → Type 0
Sends r token = r.authorization ≡ bearer ++ token

module _ (x : Crypto) (now : ℕ) (scope : Text) (r : Request) (prefix secret : Text)
    (token : IsToken prefix secret) (sends : Sends r (token_of prefix secret)) where
  parsed : parse_bearer r.authorization ≡ some (prefix, secret)
  parsed = ap parse_bearer sends ∙ parse_bearer_token prefix secret token

  denied_unknown :
      (db : Db)
      → find_key db prefix ≡ none
      → (client_auth x now scope r db).0 ≡ AuthResult.denied 401
  unfolding client_auth check_bearer check_key
  denied_unknown db h = rw (parsed, client_auth, check_bearer, h, check_key) refl

  denied_client :
      (db : Db) (key : ApiKey)
      → find_key db prefix ≡ some key
      → client_active db key.client_id ≡ false
      → (client_auth x now scope r db).0 ≡ AuthResult.denied 401
  unfolding client_auth check_bearer check_key
  denied_client db key h k = elim (Bool-cases (x.verify secret key.hash)) [
    | inl v ↦ rw (parsed, client_auth, check_bearer, h, check_key, v, k) refl
    | inr v ↦ rw (parsed, client_auth, check_bearer, h, check_key, v) refl
  ]

  pub lets_through :
      (db : Db) (key : ApiKey)
      → find_key db prefix ≡ some key
      → x.verify secret key.hash ≡ true
      → client_active db key.client_id ≡ true
      → has_scope key.scopes scope ≡ true
      → verify_signing x now r key ≡ true
      → (client_auth x now scope r db).0 ≡ AuthResult.client key.client_id
  unfolding client_auth check_bearer check_key
  lets_through db key h v a s g =
      rw (parsed, client_auth, check_bearer, h, check_key, v, a, s, g) refl

  pub denied_unsigned :
      (db : Db) (key : ApiKey)
      → find_key db prefix ≡ some key
      → x.verify secret key.hash ≡ true
      → client_active db key.client_id ≡ true
      → has_scope key.scopes scope ≡ true
      → verify_signing x now r key ≡ false
      → (client_auth x now scope r db).0 ≡ AuthResult.denied 401
  unfolding client_auth check_bearer check_key
  denied_unsigned db key h v a s g =
      rw (parsed, client_auth, check_bearer, h, check_key, v, a, s, g) refl

find_new :
    (e : ConsoleEnv) (id : ℕ) (prefix hash scopes : Text) (c d : Console)
    → prefix_taken c.db prefix ≡ false
    → d.db.keys ≡ c.db.keys ++ new_key e id prefix hash scopes ∷ []
    → find_key d.db prefix ≡ some (new_key e id prefix hash scopes)
unfolding new_key
find_new e id prefix hash scopes c d free keys =
    ap (first (is_live prefix)) keys
    ∙ (first-append_none (is_live prefix) c.db.keys _ (none_live prefix c.db.keys free)
        ∙ rw (text_eq_refl prefix) refl)

find_left :
    (e : ConsoleEnv) (id : ℕ) (prefix hash scopes : Text) (c d : Console) (q : ApiKey → Bool)
    → prefix_taken c.db prefix ≡ false
    → d.db.keys ≡ c.db.keys ++ new_key e id prefix hash scopes ∷ []
    → q (new_key e id prefix hash scopes) ≡ true
    → find_key (on_key q (λ k. record k { deleted = true }) d.db) prefix ≡ none
unfolding new_key
find_left e id prefix hash scopes c d q free keys k =
    ap
      (λ ks.
        first (is_live prefix) (
          update_where (λ (j : ApiKey). q j && not j.deleted) (λ j. record j { deleted = true })
            ks))
      keys
    ∙ none_left prefix q (new_key e id prefix hash scopes) c.db.keys free k refl

none_enabled :
    (id : ℕ) (on : Bool) (now : ℕ) (xs : List Client)
    → on ≡ true
    → any
        (λ (c : Client). c.id == id && (c.active && not c.deleted))
        (update_where
          (λ (c : Client). c.id == id && not c.deleted)
          (λ x. record x { active = not on; updated_at = now })
          xs)
      ≡ false
none_enabled id on now [] h = refl
none_enabled id on now (x ∷ xs) h = ground (arith, none_enabled id on now xs)

disabled :
    (e : ConsoleEnv) (u : User) (id : ℕ) (d : Console) (cl : Client)
    → find_client id d.db ≡ some cl
    → cl.active ≡ true
    → (client_active (toggle_client e u id d).1.db id ≡ false)
      × ((toggle_client e u id d).1.db.keys ≡ d.db.keys)
unfolding toggle_client
disabled e u id d cl known a =
    let met = first_sound (λ (c : Client). c.id == id && not c.deleted) d.db.clients known in
    let named : cl.id ≡ id = ground arith in
    (
      rw (known, toggle_client, named) (none_enabled id cl.active e.now d.db.clients a),
      rw (known, toggle_client),
    )

active_of :
    (id : ℕ) (db : Db) (cl : Client)
    → find_client id db ≡ some cl
    → cl.active ≡ true
    → client_active db id ≡ true
active_of id db cl known a =
    let met = first_sound (λ (c : Client). c.id == id && not c.deleted) db.clients known in
    any-In (λ (c : Client). c.id == id && (c.active && not c.deleted)) cl db.clients
      (first-In _ cl db.clients known) (ground arith)

module _ (e : ConsoleEnv) (id : ℕ) (boxes : List (Bool × Text)) (c : Console) (flash : Text)
    (x : Crypto) (now : ℕ) (scope : Text) (r : Request) where
  key_life :
      (d : Console) (cl : Client) (m : Minted e id boxes c flash d)
      → IsToken m.prefix (e.token 6)
      → Sends r (token_of m.prefix (e.token 6))
      → x.verify (e.token 6) m.hash ≡ true
      → find_client id d.db ≡ some cl
      → cl.active ≡ true
      → has_scope (ticked boxes) scope ≡ true
      → ((client_auth x now scope r d.db).0 ≡ AuthResult.client id)
        × ((e' : ConsoleEnv) (u' : User)
            → (client_auth x now scope r (revoke_key e' u' (e.new_id 0) d).1.db).0
              ≡ AuthResult.denied 401)
        × ((e' : ConsoleEnv) (u' : User)
            → (client_auth x now scope r (delete_client e' u' id d).1.db).0 ≡ AuthResult.denied 401)
        × ((e' : ConsoleEnv) (u' : User)
            → (client_auth x now scope r (toggle_client e' u' id d).1.db).0 ≡ AuthResult.denied 401)
  unfolding revoke_key delete_client new_key verify_signing
  key_life d cl m token sends v known a s =
      let key : ApiKey = new_key e id m.prefix m.hash (ticked boxes) in
      let found = find_new e id m.prefix m.hash (ticked boxes) c d m.free m.keys in
      (
        lets_through x now scope r m.prefix (e.token 6) token sends d.db key found v
            (active_of id d.db cl known a) s refl,
        λ e' u'. denied_unknown x now scope r m.prefix (e.token 6) token sends _ (
            find_left e id m.prefix m.hash (ticked boxes) c d (λ k. k.id == e.new_id 0) m.free
              m.keys (==_refl (e.new_id 0))),
        λ e' u'. denied_unknown x now scope r m.prefix (e.token 6) token sends _ (
            find_left e id m.prefix m.hash (ticked boxes) c d (λ k. k.client_id == id) m.free m.keys
              (==_refl id)),
        λ e' u'.
            let off = disabled e' u' id d cl known a in
            denied_client x now scope r m.prefix (e.token 6) token sends
              (toggle_client e' u' id d).1.db key (ap (first (is_live m.prefix)) off.1 ∙ found)
              off.0,
      )

-- The token behind the flash that `createKey` answers with lets a request through as the client of
-- the key, if the client is active and the scopes that were ticked grant the request's; it is refused
-- with 401 once the key is revoked, its client is deleted, or its client is disabled. This takes that
-- the hash of a secret verifies it, that random tokens are not empty and hold no dot, and that the
-- request sends the token that is shown.
pub create_key-client_auth :
    (e : ConsoleEnv) (u : User) (id : ℕ) (boxes : List (Bool × Text)) (c : Console) (flash : Text)
    (x : Crypto) (now : ℕ) (scope : Text) (r : Request) (cl : Client) (item : FlashItem)
    → ((s h : Text) → e.hash s ≡ some h → x.verify s h ≡ true)
    → ((n : ℕ) → cut b'.' (e.token n) ≡ none)
    → ((n : ℕ) → is_empty (e.token n) ≡ false)
    → (create_key e u id boxes c).0 ≡ Answer.revealed flash
    → (pop_flash e.now flash (create_key e u id boxes c).1.flashes).0 ≡ some item
    → Sends r item.secret
    → find_client id c.db ≡ some cl
    → cl.active ≡ true
    → has_scope (ticked boxes) scope ≡ true
    → ((client_auth x now scope r (create_key e u id boxes c).1.db).0 ≡ AuthResult.client id)
      × ((e' : ConsoleEnv) (u' : User)
          → (client_auth x now scope r
              (revoke_key e' u' (e.new_id 0) (create_key e u id boxes c).1).1.db).0
            ≡ AuthResult.denied 401)
      × ((e' : ConsoleEnv) (u' : User)
          → (client_auth x now scope r
              (delete_client e' u' id (create_key e u id boxes c).1).1.db).0
            ≡ AuthResult.denied 401)
      × ((e' : ConsoleEnv) (u' : User)
          → (client_auth x now scope r
              (toggle_client e' u' id (create_key e u id boxes c).1).1.db).0
            ≡ AuthResult.denied 401)
create_key-client_auth e u id boxes c flash x now scope r cl item verifies no_dot filled done popped
      sends known a s =
    let named = pop_named e.now flash (create_key e u id boxes c).1.flashes item popped in
    let m = create_key-Minted e u id boxes c flash named done in
    let (at, drawn) = m.drawn in
    let (shown, popped', same) = m.shown in
    let one : shown ≡ item = some_only (sym popped' ∙ popped) in
    let secret = sym same ∙ ap (λ (i : FlashItem). i.secret) one in
    key_life e id boxes c flash x now scope r (create_key e u id boxes c).1 cl m
      (record {
        no_dot = subst (λ p. cut b'.' p ≡ none) drawn (no_dot at);
        some_id = m.filled;
        some_secret = filled 6;
      })
      (sends ∙ ap (λ t. bearer ++ t) (sym secret)) (verifies (e.token 6) m.hash m.hashed)
      (ap (first (λ (c : Client). c.id == id && not c.deleted)) m.clients ∙ known) a s
  where
    some_only : {a b : FlashItem} → some a ≡ some b → a ≡ b
    some_only z = cc
