-- ===== src/Store.antt =====
-- server/internal/store/store.go: what a starting server puts into the tables. `Boot` holds what it takes from
-- outside; `random n` is the n-th token that is drawn.
pub mod Bootstrap
pub mod Prefixes
pub mod Stuck
pub mod Untouched
pub mod Tests
use wsms_gateway.Base.{
  ℕ, zero, suc, ◌+◌, ◌/◌, ◌%◌, Bool, true, false, not, ◌&&◌, Option, none, some, List, [], ◌∷◌,
  ◌++◌, ltb, any, if◌then◌else◌,
}
use wsms_gateway.Models.Enums.{Operator}
use wsms_gateway.Models.Records.{Text, OperatorPrefix, Client, ApiKey, EnrollmentToken, Db}
use wsms_gateway.Text.Hex.{hex, hex_digit}
use wsms_gateway.Text.{codes, text_eq}
use wsms_gateway.Router.Msisdn.{default_prefixes}

pub record Boot : Type 0 where
  pub now : ℕ
  pub new_id : ℕ → ℕ
  pub random : ℕ → Option Text
  pub hash : Text → Option Text
  pub digest : Text → Text
  pub counts : Bool
  pub stores : ℕ → Bool

-- `created = false` without and with an error, and the token.
pub data Started : Type 0 where
  present failed : Started
  created : (token : Text) → Started

-- `copy` into so many zero bytes.
fill : ℕ → Text → Text
fill zero s = []
fill (suc n) [] = 0 ∷ fill n []
fill (suc n) (c ∷ s) = c ∷ fill n s

pub prefix_of : Option Text → Text
unfolding hex fill
prefix_of none = hex (fill 4 [])
prefix_of (some s) = hex (fill 4 s)

abbrev pub all_scopes : Text
all_scopes = codes "messages:write,messages:read,devices:read,sims:read,admin"

default_client : Boot → Client
default_client b = record {
  id = b.new_id 0;
  name = codes "default";
  active = true;
  webhook_secret_enc = [];
  updated_at = b.now;
  deleted = false;
}

pub first_key : Boot → Text → Text → ApiKey
first_key b prefix hash = record {
  id = b.new_id 1;
  client_id = b.new_id 0;
  prefix = prefix;
  hash = hash;
  scopes = all_scopes;
  signing_secret_enc = [];
  active = true;
  last_used_at = none;
  updated_at = b.now;
  deleted = false;
}

pub store_client : Boot → Text → Text → Option Text → Db → Started × Db
unfolding default_client first_key
store_client b prefix sec none db = (Started.failed, db)
store_client b prefix sec (some hash) db =
    let owned = record db { clients = db.clients ++ default_client b ∷ [] } in
    if b.stores 0
    then (if b.stores 1
        then (
          Started.created (codes "wsms_" ++ (prefix ++ b'.' ∷ sec)),
          record owned { keys = db.keys ++ first_key b prefix hash ∷ [] },
        )
        else (Started.failed, owned))
    else (Started.failed, db)

pub with_secret : Boot → Text → Option Text → Db → Started × Db
unfolding store_client
with_secret b prefix none db = (Started.failed, db)
with_secret b prefix (some sec) db = store_client b prefix sec (b.hash sec) db

-- `BootstrapClient`.
unfoldable pub bootstrap_client : Boot → Db → Started × Db
unfolding with_secret prefix_of
bootstrap_client b db =
    if b.counts
    then (if any (λ (c : Client). not c.deleted) db.clients
        then (Started.present, db)
        else with_secret b (prefix_of (b.random 0)) (b.random 1) db)
    else (Started.failed, db)

store_token : Boot → Option Text → Db → Started × Db
store_token b none db = (Started.failed, db)
store_token b (some plain) db =
    let et : EnrollmentToken = record {
      id = b.new_id 0;
      token_hash = b.digest plain;
      label = codes "bootstrap";
      used = false;
      device_id = none;
      expires_at = b.now + 86400000;
      used_at = none;
      updated_at = b.now;
    } in
    if b.stores 0
    then (Started.created plain, record db { tokens = db.tokens ++ et ∷ [] })
    else (Started.failed, db)

-- `BootstrapEnrollmentToken`.
unfoldable pub bootstrap_enrollment : Boot → Db → Started × Db
unfolding store_token
bootstrap_enrollment b db =
    if b.counts
    then (if any (λ (t : EnrollmentToken). not t.used && ltb b.now t.expires_at) db.tokens
        then (Started.present, db)
        else store_token b (b.random 0) db)
    else (Started.failed, db)

-- `FirstOrCreate` of one row.
abbrev pub seed_one : Text → Operator → List OperatorPrefix → List OperatorPrefix
seed_one p op rows =
    if any (λ (r : OperatorPrefix). text_eq r.prefix p) rows
    then rows
    else rows ++ record { prefix = p; operator = op } ∷ []

-- `fails p` is an error of the database at the row of prefix p.
pub seed_all :
    (Text → Bool) → List (Text × Operator) → List OperatorPrefix → Bool × List OperatorPrefix
seed_all fails [] rows = (true, rows)
seed_all fails ((p, op) ∷ table) rows =
    let rest = seed_all fails table (seed_one p op rows) in if fails p then (false, rows) else rest

-- `seedPrefixes`, and whether it returns no error; Go ranges over the map in any order.
unfoldable pub seed_prefixes : (Text → Bool) → Db → Bool × Db
unfolding seed_all
seed_prefixes fails db =
    let (ok, rows) = seed_all fails default_prefixes db.prefixes in
    (ok, record db { prefixes = rows })

pub as_table : List OperatorPrefix → List (Text × Operator)
as_table [] = []
as_table (r ∷ rows) = (r.prefix, r.operator) ∷ as_table rows

-- `LoadPrefixes`, where the query is answered; prefixes are the primary key.
unfoldable pub load_prefixes : Bool → Db → Option (List (Text × Operator))
unfolding as_table
load_prefixes answered db = if answered then some (as_table db.prefixes) else none
