-- ===== src/Api/Socket.antt =====
-- server/internal/api/ws.go: deviceWS, up to the registration of the connection by Serve of
-- server/internal/ws/conn.go.
pub mod Connected
use wsms_gateway.Base.{ℕ, Bool, true, false, Option, none, some, if◌then◌else◌}
use wsms_gateway.Models.Records.{Text, Db}
use wsms_gateway.Ws.Hub.{Hub, serve}
use wsms_gateway.Api.Auth.{Crypto}
use wsms_gateway.Api.Device.{device_auth}

-- 401, an upgrade that fails with an answer of its own, and an open socket.
pub data Opened : Type 0 where
  refused failed connected : Opened

-- What a request meets: the clock, whether the upgrade succeeds, and the serial number of the
-- connection.
pub record Upgrade : Type 0 where
  pub now : ℕ
  pub upgrades : Bool
  pub serial : ℕ

connect : Upgrade → ℕ → Hub → Db → Opened × Hub × Db
connect u device h db =
    if u.upgrades
    then (let (h', db') = serve u.now u.serial device h db in (Opened.connected, h', db'))
    else (Opened.failed, h, db)

-- `deviceWS`; `read_id` reads the text of an id.
unfoldable pub device_ws : Crypto → (Text → ℕ) → Upgrade → Text → Hub → Db → Opened × Hub × Db
unfolding connect
device_ws x read_id u header h db = elim (device_auth x read_id header db) [
  | none ↦ (Opened.refused, h, db)
  | some device ↦ connect u device h db
]
