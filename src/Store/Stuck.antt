-- ===== src/Store/Stuck.antt =====
-- A first start that is broken off (server/internal/store/store.go).
use wsms_gateway.Base.{
  ◌≡◌, refl, sym, ap, subst, ◌∙◌, Bool, true, false, not, ◌||◌, some, [], ◌∷◌, ◌++◌, any,
  any-append, if◌then◌else◌,
}
use wsms_gateway.Models.Records.{Text, Client, Db}
use wsms_gateway.Text.{codes}
use wsms_gateway.Store.{
  Boot, Started, prefix_of, default_client, first_key, store_client, with_secret, bootstrap_client,
}

-- The client without its key.
abbrev stranded : Boot → Db → Db
stranded b db = record db { clients = db.clients ++ default_client b ∷ [] }

stranded_start :
    (b : Boot) (db : Db) (sec hash : Text)
    → b.counts ≡ true
    → any (λ (c : Client). not c.deleted) db.clients ≡ false
    → b.random 1 ≡ some sec
    → b.hash sec ≡ some hash
    → b.stores 0 ≡ true
    → b.stores 1 ≡ false
    → bootstrap_client b db ≡ (Started.failed, stranded b db)
unfolding bootstrap_client with_secret store_client
stranded_start b db sec hash counted new drawn hashed first_stored second_failed =
    let prefix = prefix_of (b.random 0) in
    let counting =
      if any (λ (c : Client). not c.deleted) db.clients
      then (Started.present, db)
      else with_secret b prefix (b.random 1) db in
    let both : Started × Db = (
      Started.created (codes "wsms_" ++ (prefix ++ b'.' ∷ sec)),
      record (stranded b db) { keys = db.keys ++ first_key b prefix hash ∷ [] },
    ) in
    let half : Started × Db = (Started.failed, stranded b db) in
    ap (λ t. if t then counting else (Started.failed, db)) counted
    ∙ (ap (λ t. if t then (Started.present, db) else with_secret b prefix (b.random 1) db) new
        ∙ (ap (λ o. with_secret b prefix o db) drawn
            ∙ (ap (λ o. store_client b prefix sec o db) hashed
                ∙ (ap (λ t. if t then if b.stores 1 then both else half else (Started.failed, db))
                      first_stored
                    ∙ ap (λ t. if t then both else half) second_failed))))

known_now :
    (b : Boot) (db : Db) → any (λ (c : Client). not c.deleted) (stranded b db).clients ≡ true
unfolding default_client
known_now b db =
    any-append (λ (c : Client). not c.deleted) db.clients (default_client b ∷ []) ∙ or_true _
  where
    or_true : (a : Bool) → (a || true) ≡ true
    or_true true = refl
    or_true false = refl

-- Where a first start stores the default client and then fails to store its key, BootstrapClient fails
-- and leaves the client without a key; every later start that can count the clients finds it, makes no
-- key and changes nothing.
pub bootstrap_client_stranded :
    (b : Boot) (db : Db) (sec hash : Text)
    → b.counts ≡ true
    → any (λ (c : Client). not c.deleted) db.clients ≡ false
    → b.random 1 ≡ some sec
    → b.hash sec ≡ some hash
    → b.stores 0 ≡ true
    → b.stores 1 ≡ false
    → ((bootstrap_client b db).0 ≡ Started.failed)
      × ((bootstrap_client b db).1.keys ≡ db.keys)
      × ((later : Boot)
          → later.counts ≡ true
          → bootstrap_client later (bootstrap_client b db).1
            ≡ (Started.present, (bootstrap_client b db).1))
unfolding bootstrap_client
bootstrap_client_stranded b db sec hash counted new drawn hashed first_stored second_failed =
    let broken = stranded_start b db sec hash counted new drawn hashed first_stored second_failed in
    (
      ap (λ (p : Started × Db). p.0) broken,
      ap (λ (p : Started × Db). p.1.keys) broken,
      λ later answers.
          subst (λ (d : Db). bootstrap_client later d ≡ (Started.present, d))
            (sym (ap (λ (p : Started × Db). p.1) broken))
            (found later (stranded b db) answers (known_now b db)),
    )
  where
    found :
        (later : Boot) (d : Db)
        → later.counts ≡ true
        → any (λ (c : Client). not c.deleted) d.clients ≡ true
        → bootstrap_client later d ≡ (Started.present, d)
    found later d answers known =
        let counting =
          if any (λ (c : Client). not c.deleted) d.clients
          then (Started.present, d)
          else with_secret later (prefix_of (later.random 0)) (later.random 1) d in
        ap (λ t. if t then counting else (Started.failed, d)) answers
        ∙ ap
            (λ t.
              if t
              then (Started.present, d)
              else with_secret later (prefix_of (later.random 0)) (later.random 1) d)
            known
