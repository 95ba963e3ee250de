-- ===== src/Ws/Hub/Tests.antt =====
-- The theorems about the hub at a hub with one connection.
use wsms_gateway.Base.{◌≡◌, refl, true, false, none, some, In}
use wsms_gateway.Models.Enums.{DeviceStatus, is_disabled}
use wsms_gateway.Models.Records.{Device}
use wsms_gateway.Text.{codes}
use wsms_gateway.Api.Auth.{Crypto, parse_device_bearer}
use wsms_gateway.Api.Device.{device_auth}
use wsms_gateway.Api.Socket.{Opened, Upgrade, device_ws}
use wsms_gateway.Api.Socket.Connected.{Comes, device_ws-Comes}
use wsms_gateway.Ws.Hub.{lookup_conn, online, unregister_conn, set_device_status, serve}
use wsms_gateway.Ws.Hub.Presence.{unregister_after_serve}
use wsms_gateway.Samples.{phone_conn, phone_hub, fleet_db}

abbrev trusting : Crypto
trusting = record { verify = λ s k. true; open_secret = λ b. none; hmac = λ k s. s }

abbrev fresh_socket : Upgrade
fresh_socket = record { now = 200000; upgrades = true; serial = 6 }

opened :
    (device_ws trusting (λ t. 1) fresh_socket (codes "Bearer dev_1.s") phone_hub fleet_db).0
    ≡ Opened.connected
unfolding device_ws device_auth parse_device_bearer
opened = refl

device_ws-Comes_example :
    Comes trusting
      (λ t. 1)
      fresh_socket
      (codes "Bearer dev_1.s")
      phone_hub
      fleet_db
      (device_ws trusting (λ t. 1) fresh_socket (codes "Bearer dev_1.s") phone_hub fleet_db)
device_ws-Comes_example =
    device_ws-Comes trusting (λ t. 1) fresh_socket (codes "Bearer dev_1.s") phone_hub fleet_db

unregister_after_serve_example :
    let left = unregister_conn phone_conn phone_hub in
    let entered = serve 200000 6 1 left.0 fleet_db in
    let settled = set_device_status 200001 1 DeviceStatus.offline entered.1 in
    (left.1 ≡ true)
    × (online entered.0 1 ≡ true)
    × ((d : Device)
        → In d settled.devices
        → d.id ≡ 1
        → d.deleted ≡ false
        → is_disabled d.status ≡ false
        → d.status ≡ DeviceStatus.offline)
unregister_after_serve_example =
    unregister_after_serve 200000 200001 phone_conn 6 phone_hub fleet_db here
  where
    here : lookup_conn phone_hub 1 ≡ some 5
    here = unfold lookup_conn in refl
