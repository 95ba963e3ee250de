-- ===== src/Api/Tests/Server.antt =====
-- A client's requests to the server, at one client of two.
use wsms_gateway.Base.{ℕ, ◌≡◌, refl, true, [], ◌∷◌}
use wsms_gateway.Models.Records.{Message, Db}
use wsms_gateway.Text.{codes}
use wsms_gateway.Api.Reply.{Reply, Reason}
use wsms_gateway.Api.Auth.{client_auth, parse_bearer, has_scope, verify_signing}
use wsms_gateway.Api.Messages.{cancel_message}
use wsms_gateway.Api.Listing.{list_messages, readyz}
use wsms_gateway.Api.Server.{Call, Service, serve}
use wsms_gateway.Api.Server.Tenants.{Served, serve-Served}
use wsms_gateway.Samples.{otp, fleet_db, phone_hub}
use wsms_gateway.Api.Tests.{plain, shop, shop_key, shop_request, pair}

-- A message of another client.
abbrev other : Message
other = record otp { id = 101; client_id = 8 }

abbrev two_clients : Db
two_clients = record fleet_db {
  messages = otp ∷ other ∷ [];
  clients = shop ∷ [];
  keys = record shop_key { scopes = codes "messages:write,messages:read" } ∷ [];
}

abbrev service : Service ℕ
service = record { db = two_clients; hub = phone_hub; buckets = [] }

abbrev cancel_other : Call
cancel_other = Call.cancel 200000 true (λ db. db) 101

abbrev cancel_own : Call
cancel_own = Call.cancel 200000 true (λ db. db) 100

own_cancelled :
    (serve pair plain 1764000000 0 shop_request cancel_own service).0 ≡ Reply.cancelled 100
unfolding serve client_auth parse_bearer has_scope verify_signing cancel_message
own_cancelled = refl

other_unknown :
    (serve pair plain 1764000000 0 shop_request cancel_other service).0 ≡ Reply.refused 404
unfolding serve client_auth parse_bearer has_scope verify_signing cancel_message
other_unknown = refl

own_listed :
    (serve pair plain 1764000000 0 shop_request (Call.list (codes "QUEUED") []) service).0
    ≡ Reply.messages (otp ∷ [])
unfolding serve client_auth parse_bearer has_scope verify_signing list_messages
own_listed = refl

devices_denied :
    (serve pair plain 1764000000 0 shop_request Call.devices service).0 ≡ Reply.refused 403
unfolding serve client_auth parse_bearer has_scope verify_signing
devices_denied = refl

not_ready_now :
    readyz true true (record { conns = []; heap = [] }) fleet_db
    ≡ Reply.not_ready (Reason.no_device_online ∷ [])
unfolding readyz
not_ready_now = refl

serve-Served_example :
    Served plain 1764000000 shop_request cancel_own service
      (serve pair plain 1764000000 0 shop_request cancel_own service).0
      (serve pair plain 1764000000 0 shop_request cancel_own service).1
serve-Served_example =
    serve-Served pair plain 1764000000 0 shop_request cancel_own service (λ d. refl)
      (refl, (refl, tt))
