-- ===== src/Admin/Keys/Mint.antt =====
-- What createKey (server/internal/admin/handlers.go) leaves where it shows a token.
use wsms_gateway.Base.{
  ℕ, suc, zero, ◌≡◌, refl, ◌∙◌, subst, Bool, true, false, Option, none, some, List, [], ◌∷◌, ◌++◌,
  Option-cases, Bool-cases, inl, inr, arith, ltb, ◌+◌,
}
use wsms_gateway.Models.Records.{Text, is_empty, Client, Db}
use wsms_gateway.Text.{codes}
use wsms_gateway.Admin.Console.{FlashKind, FlashItem, Console, ConsoleEnv, User, Answer}
use wsms_gateway.Admin.Flash.{flash_ttl, pop_flash, put_flash}
use wsms_gateway.Admin.Flash.Once.{pop_flash-put_flash}
use wsms_gateway.Admin.Access.{find_client}
use wsms_gateway.Admin.Keys.{
  ticked, prefix_taken, allocate, token_of, new_key, store_key, key_for, create_key,
}

-- A prefix that was drawn is not taken by a key that is not deleted.
allocate-free :
    (draw : ℕ → Text) (db : Db) (tries n : ℕ) (p : Text)
    → allocate draw db tries n ≡ some p
    → prefix_taken db p ≡ false
unfolding allocate
allocate-free draw db zero n p h = absurd (cc h)
allocate-free draw db (suc tries) n p h = elim (Bool-cases (prefix_taken db (draw n))) [
  | inl q ↦ allocate-free draw db tries (suc n) p (rw (q, allocate) at h)
  | inr q ↦
      let same : draw n ≡ p = some_only (rw (q, allocate) at h) in
      subst (λ t. prefix_taken db t ≡ false) same q
]
  where
    some_only : {a b : Text} → some a ≡ some b → a ≡ b
    some_only z = cc

-- It is one of the draws.
allocate-drawn :
    (draw : ℕ → Text) (db : Db) (tries n : ℕ) (p : Text)
    → allocate draw db tries n ≡ some p
    → (k : ℕ) × (draw k ≡ p)
unfolding allocate
allocate-drawn draw db zero n p h = absurd (cc h)
allocate-drawn draw db (suc tries) n p h = elim (Bool-cases (prefix_taken db (draw n))) [
  | inl q ↦ allocate-drawn draw db tries (suc n) p (rw (q, allocate) at h)
  | inr q ↦ (n, some_only (rw (q, allocate) at h))
]
  where
    some_only : {a b : Text} → some a ≡ some b → a ≡ b
    some_only z = cc

-- What `createKey` leaves where it shows a token.
pub record Minted (e : ConsoleEnv) (id : ℕ) (boxes : List (Bool × Text)) (c : Console)
    (flash : Text) (d : Console) : Type 0 where
  pub client : Client
  pub hash : Text
  pub prefix : Text
  pub known : find_client id c.db ≡ some client
  pub hashed : e.hash (e.token 6) ≡ some hash
  pub drawn : (k : ℕ) × (e.token k ≡ prefix)
  pub free : prefix_taken c.db prefix ≡ false
  pub filled : is_empty prefix ≡ false
  pub keys : d.db.keys ≡ c.db.keys ++ new_key e id prefix hash (ticked boxes) ∷ []
  pub clients : d.db.clients ≡ c.db.clients
  pub shown :
      (item : FlashItem) × ((pop_flash e.now flash d.flashes).0 ≡ some item)
      × (item.secret ≡ token_of prefix (e.token 6))

revealed_only : {t s : Text} → Answer.revealed t ≡ Answer.revealed s → t ≡ s
revealed_only z = cc

rejected-ne-revealed : {s : Text} → Answer.rejected ≡ Answer.revealed s → ⊥
rejected-ne-revealed z = cc

not_found-ne-revealed : {s : Text} → Answer.not_found ≡ Answer.revealed s → ⊥
not_found-ne-revealed z = cc

module _ (e : ConsoleEnv) (u : User) (id : ℕ) (boxes : List (Bool × Text)) (c : Console)
    (flash : Text) (unnamed : is_empty flash ≡ false) where
  shown_of :
      (cl : Client) (prefix hash : Text)
      → e.stores 0 ≡ true
      → e.token 7 ≡ flash
      → (item : FlashItem) × ((pop_flash e.now flash
            (store_key e u cl id (ticked boxes) prefix (some hash) c).1.flashes).0
          ≡ some item)
        × (item.secret ≡ token_of prefix (e.token 6))
  unfolding store_key
  shown_of cl prefix hash q named =
      let item : FlashItem = record {
        id = flash;
        kind = FlashKind.apikey;
        label = cl.name ++ (codes " · wsms_" ++ prefix);
        secret = token_of prefix (e.token 6);
        expires = e.now + flash_ttl;
      } in
      let in_time : ltb (e.now + flash_ttl) e.now ≡ false = ground arith in
      let popped =
        (pop_flash-put_flash e.now e.now flash FlashKind.apikey
          (cl.name ++ (codes " · wsms_" ++ prefix)) (token_of prefix (e.token 6)) c.flashes
          unnamed).0 in
      (item, rw (q, store_key, named) (popped ∙ rw in_time), refl)

  store_key-Minted :
      (cl : Client) (p : ℕ) (prefix : Text) (hash : Option Text)
      → find_client id c.db ≡ some cl
      → e.hash (e.token 6) ≡ hash
      → prefix_taken c.db (p ∷ prefix) ≡ false
      → (k : ℕ) × (e.token k ≡ p ∷ prefix)
      → (store_key e u cl id (ticked boxes) (p ∷ prefix) hash c).0 ≡ Answer.revealed flash
      → Minted e id boxes c flash (store_key e u cl id (ticked boxes) (p ∷ prefix) hash c).1
  unfolding store_key put_flash pop_flash
  store_key-Minted cl p prefix none known hashed free drawn h = absurd (rejected-ne-revealed h)
  store_key-Minted cl p prefix (some hash) known hashed free drawn h =
      elim (Bool-cases (e.stores 0)) [
        | inr q ↦ absurd (rejected-ne-revealed (rw (q, store_key) at h))
        | inl q ↦
            let id_flash : e.token 7 ≡ flash = revealed_only (rw (q, store_key) at h) in
            record {
              client = cl;
              hash = hash;
              prefix = p ∷ prefix;
              known = known;
              hashed = hashed;
              drawn = drawn;
              free = free;
              filled = refl;
              keys = rw (q, store_key);
              clients = rw (q, store_key);
              shown = shown_of cl (p ∷ prefix) hash q id_flash;
            }
      ]

  key_for-Minted :
      (cl : Client) (prefix : Option Text)
      → find_client id c.db ≡ some cl
      → allocate e.token c.db 6 0 ≡ prefix
      → (key_for e u cl id (ticked boxes) prefix c).0 ≡ Answer.revealed flash
      → Minted e id boxes c flash (key_for e u cl id (ticked boxes) prefix c).1
  unfolding key_for
  key_for-Minted cl none known drew h = absurd (rejected-ne-revealed h)
  key_for-Minted cl (some []) known drew h = absurd (rejected-ne-revealed h)
  key_for-Minted cl (some (p ∷ prefix)) known drew h =
      store_key-Minted cl p prefix (e.hash (e.token 6)) known refl
        (allocate-free e.token c.db 6 0 (p ∷ prefix) drew)
        (allocate-drawn e.token c.db 6 0 (p ∷ prefix) drew) h

  pub create_key-Minted :
      (create_key e u id boxes c).0 ≡ Answer.revealed flash
      → Minted e id boxes c flash (create_key e u id boxes c).1
  unfolding create_key
  create_key-Minted h = elim (Option-cases (find_client id c.db)) [
    | inl q ↦ absurd (not_found-ne-revealed (rw (q, create_key) at h))
    | inr (cl, q) ↦ elim (Bool-cases (is_empty (ticked boxes))) [
      | inl n ↦ absurd (rejected-ne-revealed (rw (q, create_key, n) at h))
      | inr n ↦
          rw (q, create_key, n)
            (key_for-Minted cl (allocate e.token c.db 6 0) q refl (rw (q, create_key, n) at h))
    ]
  ]
