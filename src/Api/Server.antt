-- ===== src/Api/Server.antt =====
-- server/internal/api/server.go: the requests of clients to /v1, each behind `clientAuth` with the
-- scope of its route, and the submissions behind the rate limit.
pub mod Tenants
use wsms_gateway.Base.{ℕ, Bool, true, false, Option, none, some, if◌then◌else◌, List}
use wsms_gateway.Models.Records.{Text, Db}
use wsms_gateway.Text.{codes}
use wsms_gateway.Ws.Hub.{Hub}
use wsms_gateway.Api.Reply.{Reply}
use wsms_gateway.Api.Auth.{Crypto, Request, AuthResult, client_auth}
use wsms_gateway.Api.RateLimit.{Limiter, Bucket, allow}
use wsms_gateway.Api.Messages.{SubmitReq, Submit, submit_message, get_message, cancel_message}
use wsms_gateway.Api.Listing.{list_messages, list_devices, list_sims}

-- A request with its parameters, and with what its handler meets; a body that does not bind is none.
pub data Call : Type 0 where
  submit : Submit → Option SubmitReq → Call
  get : (id : ℕ) → (with_events : Bool) → Call
  list : (status operator : Text) → Call
  cancel : (now : ℕ) → (pick : Bool) → (others : Db → Db) → (id : ℕ) → Call
  devices : Call
  sims : (on_net_ready : Bool) → Call

-- The scope of its route.
abbrev pub scope_of : Call → Text
scope_of (Call.submit w req) = codes "messages:write"
scope_of (Call.get id with_events) = codes "messages:read"
scope_of (Call.list status operator) = codes "messages:read"
scope_of (Call.cancel now pick others id) = codes "messages:write"
scope_of Call.devices = codes "devices:read"
scope_of (Call.sims ready) = codes "sims:read"

-- The routes behind the rate limit.
abbrev pub is_limited : Call → Bool
is_limited (Call.submit w req) = true
is_limited _ = false

-- The handler of the route, for the client that `clientAuth` set.
pub run : ℕ → Call → Db → Hub → Reply × Db × Hub
run client (Call.submit w none) db hub = (Reply.refused 400, db, hub)
run client (Call.submit w (some req)) db hub =
    let (reply, after) = submit_message w client req db in (reply, after, hub)
run client (Call.get id with_events) db hub = (get_message client id with_events db, db, hub)
run client (Call.list status operator) db hub = (list_messages client status operator db, db, hub)
run client (Call.cancel now pick others id) db hub = cancel_message now pick others client id db hub
run client Call.devices db hub = (list_devices hub db, db, hub)
run client (Call.sims ready) db hub = (list_sims ready db, db, hub)

-- The tables, the hub, and the buckets of the rate limit over the limiter `S`.
pub record Service (S : Type 0) : Type 0 where
  pub db : Db
  pub hub : Hub
  pub buckets : List (Bucket S)

module _ {S : Type 0} (lib : Limiter S) where
  -- `middleware` of the rate limit, on the routes that have it.
  pub passes : ℕ → ℕ → Call → List (Bucket S) → Bool × List (Bucket S)
  passes now client call buckets =
      if is_limited call then allow lib now client buckets else (true, buckets)

  pub handled : ℕ → ℕ → Call → Service S → Reply × Service S
  unfolding passes run
  handled now client call s =
      let (ok, buckets) = passes now client call s.buckets in
      let (reply, db, hub) = run client call s.db s.hub in
      if ok
      then (reply, record { db = db; hub = hub; buckets = buckets })
      else (Reply.refused 429, record s { buckets = buckets })

  pub admitted : ℕ → Call → AuthResult → Service S → Reply × Service S
  unfolding handled
  admitted now call (AuthResult.denied code) s = (Reply.refused code, s)
  admitted now call (AuthResult.client client) s = handled now client call s

  -- A request of a client; the clock of `clientAuth` is in seconds, that of the limiter is its own.
  unfoldable pub serve : Crypto → (seconds now : ℕ) → Request → Call → Service S → Reply × Service S
  unfolding admitted
  serve x seconds now r call s =
      let (who, db) = client_auth x seconds (scope_of call) r s.db in
      admitted now call who (record s { db = db })
