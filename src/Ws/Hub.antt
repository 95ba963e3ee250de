-- ===== src/Ws/Hub.antt =====
-- server/internal/ws/hub.go and conn.go: the registry of live connections and their send buffers.
-- A `*Conn` is a serial number into the heap of connections. An operation that takes the hub's
-- mutex is one step; the status update that `register` and `unregister` make after they release it
-- is a step of its own, `set_device_status`.
pub mod Buffers
pub mod Registry
pub mod Presence
mod Tests
use wsms_gateway.Base.{
  ℕ, ◌+◌, Bool, true, false, not, ◌&&◌, Option, none, some, List, [], ◌∷◌, ◌++◌, ltb, ◌==◌, is_some,
  if◌then◌else◌, length, first, by_key, update_where, delete_where,
}
use wsms_gateway.Models.Enums.{DeviceStatus, is_online, is_disabled}
use wsms_gateway.Models.Records.{Device, Db}
use wsms_gateway.Ws.Protocol.{Frame}

abbrev pub send_buffer : ℕ
send_buffer = 64

pub record Conn : Type 0 where
  pub serial : ℕ
  pub device_id : ℕ
  pub send : List Frame
  pub done : Bool

-- An entry of the map from device ids to connections.
pub record Entry : Type 0 where
  pub device_id : ℕ
  pub conn : ℕ

pub record Hub : Type 0 where
  pub conns : List Entry
  pub heap : List Conn

pub data SendResult : Type 0 where
  sent device_offline : SendResult

abbrev pub entry_key : Entry → ℕ
entry_key e = e.device_id

abbrev pub conn_key : Conn → ℕ
conn_key c = c.serial

unfoldable pub lookup_conn : Hub → ℕ → Option ℕ
lookup_conn h device = elim (by_key entry_key device h.conns) [ none ↦ none | some e ↦ some e.conn ]

unfoldable pub online : Hub → ℕ → Bool
unfolding lookup_conn
online h device = is_some (lookup_conn h device)

unfoldable pub online_count : Hub → ℕ
online_count h = length h.conns

-- `close`, once: later calls change nothing.
unfoldable pub close : ℕ → Hub → Hub
close serial h = record h {
  heap = update_where (λ c. c.serial == serial) (λ c. record c { done = true }) h.heap;
}

close_old : Option ℕ → ℕ → Hub → Hub
unfolding close
close_old none new h = h
close_old (some old) new h = if old == new then h else close old h

abbrev without : ℕ → List Entry → List Entry
without device = delete_where (λ e. e.device_id == device)

-- `register` under the mutex: supersede, then enter.
unfoldable pub register_conn : Conn → Hub → Hub
unfolding close_old lookup_conn
register_conn c h =
    let closed = close_old (lookup_conn h c.device_id) c.serial h in
    record closed {
      conns =
          record { device_id = c.device_id; conn = c.serial } ∷ without c.device_id closed.conns;
    }

-- `unregister` under the mutex; the result says whether the status is to be set.
unfoldable pub unregister_conn : Conn → Hub → Hub × Bool
unfolding lookup_conn
unregister_conn c h = elim (lookup_conn h c.device_id) [
  | none ↦ (h, false)
  | some current ↦
      if current == c.serial
      then (record h { conns = without c.device_id h.conns }, true)
      else (h, false)
]

unfoldable pub set_device_status : ℕ → ℕ → DeviceStatus → Db → Db
set_device_status now device status db = record db {
  devices =
      update_where (λ d. d.id == device && (not (is_disabled d.status) && not d.deleted))
        (λ d. record d {
          status = status;
          last_seen_at = some now;
          wake_misses = if is_online status then 0 else d.wake_misses;
          updated_at = now;
        })
        db.devices;
}

-- The two operations as `Serve` and the read pump call them.
unfoldable pub register : ℕ → Conn → Hub → Db → Hub × Db
unfolding register_conn set_device_status
register now c h db = (register_conn c h, set_device_status now c.device_id DeviceStatus.online db)

-- `Serve` makes a connection and registers it.
unfoldable pub serve : ℕ → ℕ → ℕ → Hub → Db → Hub × Db
unfolding register
serve now serial device h db =
    let c : Conn = record { serial = serial; device_id = device; send = []; done = false } in
    register now c (record h { heap = c ∷ h.heap }) db

unfoldable pub unregister : ℕ → Conn → Hub → Db → Hub × Db
unfolding unregister_conn set_device_status
unregister now c h db =
    let (h', current) = unregister_conn c h in
    if current then (h', set_device_status now c.device_id DeviceStatus.offline db) else (h', db)

-- `enqueue`: where the connection is closing and its buffer has room, `select` may take either
-- case, and `pick` says which.
unfoldable pub enqueue : Bool → Frame → Conn → Conn × SendResult
enqueue pick f c =
    let room = ltb (length c.send) send_buffer in
    let put : Conn × SendResult = (record c { send = c.send ++ f ∷ [] }, SendResult.sent) in
    if c.done
    then (if room && pick then put else (c, SendResult.device_offline))
    else if room
    then put
    else (record c { done = true }, SendResult.device_offline)

unfoldable pub send_to : Bool → ℕ → Frame → Hub → Hub × SendResult
unfolding enqueue lookup_conn
send_to pick device f h = elim (lookup_conn h device) [
  | none ↦ (h, SendResult.device_offline)
  | some serial ↦ elim (by_key conn_key serial h.heap) [
    | none ↦ (h, SendResult.device_offline)
    | some c ↦ (
      record h { heap = update_where (λ x. x.serial == serial) (λ x. (enqueue pick f x).0) h.heap },
      (enqueue pick f c).1,
    )
  ]
]

unfoldable pub disconnect : ℕ → Hub → Hub
unfolding lookup_conn close
disconnect device h = elim (lookup_conn h device) [
  | none ↦ h
  | some serial ↦ close serial (record h { conns = without device h.conns })
]

abbrev close_all : List Entry → Hub → Hub
close_all [] h = h
close_all (e ∷ es) h = close_all es (close e.conn h)

unfoldable pub shutdown : Hub → Hub
unfolding close
shutdown h = record (close_all h.conns h) { conns = [] }
