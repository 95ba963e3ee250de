-- ===== src/Dispatch/Send.antt =====
-- server/internal/dispatch/dispatcher.go: `dispatchOne`, with the claim of a message, the delivery
-- of its command, the wake of offline devices, and the drain loop of a worker.
pub mod Preserves
pub mod Untouched
pub mod Delivery
pub mod Outcome
pub mod Claim
pub mod Follows
pub mod Drain
pub mod Starved
use wsms_gateway.Base.{
  ℕ, zero, suc, ◌+◌, Bool, true, false, not, ◌&&◌, ◌||◌, Option, none, some, List, [], ◌∷◌, ◌++◌,
  ltb, ◌==◌, any, first, select, update_where, if◌then◌else◌,
}
use wsms_gateway.Models.Enums.{
  MessageStatus, EventType, operator_eq, is_queued, is_disabled, is_ready,
}
use wsms_gateway.Models.Records.{Text, is_empty, Device, Sim, Message, Detail, MessageSend, Db}
use wsms_gateway.Text.{text}
use wsms_gateway.Ws.Protocol.{SendCommandData, Frame}
use wsms_gateway.Ws.Hub.{SendResult, send_to, online}
use wsms_gateway.Router.Engine.{Choice, RouteError, Result, best, route, release, is_strict}
use wsms_gateway.Dispatch.State.{State, Env, now_of, event, set_status, terminate, delete_send}

-- QUEUED, not expired, and not locked by another worker.
pub claimable : Env → Message → Bool
claimable e m = is_queued m.status && (ltb (now_of e) m.expires_at && not (e.locked_message m.id))

abbrev pub older : Message → Message → Bool
older a b = ltb a.created_at b.created_at

claimed : ℕ → Message → Message
claimed now m = record m { status = MessageStatus.routing; updated_at = now }

-- `claim`: the oldest such message, which is now ROUTING.
unfoldable pub claim : Env → Db → Option (Message × Db)
unfolding claimable claimed
claim e db = elim (best older (claimable e) db.messages) [
  | none ↦ none
  | some m ↦ some (
    claimed (now_of e) m,
    record db { messages = update_where (λ x. x.id == m.id) (claimed (now_of e)) db.messages },
  )
]

-- `recentlyWoke`, which also notes the wake.
unfoldable pub recently_woke : ℕ → ℕ → List (ℕ × ℕ) → Bool × List (ℕ × ℕ)
recently_woke now device last_wake = elim (first (λ w. w.0 == device) last_wake) [
  | none ↦ (false, (device, now) ∷ last_wake)
  | some w ↦ if ltb now (w.1 + 30000) then (true, last_wake) else (false, (device, now) ∷ last_wake)
]

-- A device that could take the message once it is awake.
is_candidate : Db → Message → Device → Bool
is_candidate db msg d =
    not (is_disabled d.status)
    && (not (is_empty d.push_token)
        && (not d.deleted
            && any
                (λ (s : Sim).
                  s.device_id == d.id
                  && (is_ready s.status
                      && (not s.deleted
                          && (not (is_strict msg.routing_policy)
                              || operator_eq s.operator msg.target_operator))))
                db.sims))

abbrev take_devices : ℕ → List Device → List Device
take_devices zero ds = []
take_devices (suc n) [] = []
take_devices (suc n) (d ∷ ds) = d ∷ take_devices n ds

-- `Update` sets `updated_at` too.
note_miss : ℕ → ℕ → Db → Db
note_miss now device db = record db {
  devices =
      update_where (λ d. d.id == device && not d.deleted)
        (λ d. record d { wake_misses = d.wake_misses + 1; updated_at = now }) db.devices;
}

wake_one : Env → Device → State → State
unfolding note_miss
wake_one e d st =
    let (recent, noted) = recently_woke (now_of e) d.id st.last_wake in
    if online st.hub d.id
    then st
    else if recent
    then st
    else record st { db = note_miss (now_of e) d.id st.db; last_wake = noted }

wake_each : Env → List Device → State → State
unfolding wake_one
wake_each e [] st = st
wake_each e (d ∷ ds) st = wake_each e ds (wake_one e d st)

-- `wakeFor`.
unfoldable pub wake_for : Env → Message → State → State
unfolding wake_each is_candidate
wake_for e msg st =
    if e.has_waker
    then wake_each e (take_devices 5 (select (is_candidate st.db msg) st.db.devices)) st
    else st

-- The push token of a device that is not deleted.
abbrev token_of : Db → ℕ → Text
token_of db device = elim (first (λ (d : Device). d.id == device && not d.deleted) db.devices) [
  | none ↦ []
  | some d ↦ d.push_token
]

-- `deliverCommand`; true is success.
unfoldable pub deliver_command : Env → ℕ → SendCommandData → State → State × Bool
deliver_command e device sc st =
    let token = token_of st.db device in
    let (hub, outcome) = send_to e.pick device (Frame.send_command sc) st.hub in
    if e.has_waker && not (is_empty token)
    then (if e.push_accepted token
        then (record st { pushed = st.pushed ++ (token, sc) ∷ [] }, true)
        else (st, false))
    else (record st { hub = hub }, elim outcome [ SendResult.sent ↦ true | _ ↦ false ])

pub command_of : Message → Choice → SendCommandData
command_of msg c = record {
  message_id = msg.id;
  target = msg.target_msisdn;
  body = msg.body;
  subscription_id = c.subscription_id;
  encoding = msg.encoding;
  expires_at_ms = msg.expires_at;
}

send_row : ℕ → Message → Choice → MessageSend
send_row now msg c = record {
  message_id = msg.id;
  sim_id = c.sim_id;
  device_id = c.device_id;
  dispatched_at = now;
}

-- The ledger row, `ON CONFLICT DO NOTHING`; where it cannot be stored the send goes on without it.
pub insert_send : Env → Message → Choice → Db → Db
unfolding send_row
insert_send e msg c db = record db {
  sends =
      if any (λ (s : MessageSend). s.message_id == msg.id) db.sends || not e.ledger_stored
      then db.sends
      else db.sends ++ send_row (now_of e) msg c ∷ [];
}

pub pinned : ℕ → Choice → Message → Message
pinned now c m = record m {
  status = MessageStatus.awaiting_ack;
  assigned_sim_id = some c.sim_id;
  assigned_device_id = some c.device_id;
  assigned_operator = some c.operator;
  dispatched_at = some now;
  attempts = m.attempts + 1;
  updated_at = now;
}

-- The command is on the wire.
pin : ℕ → Message → Choice → Db → Db
unfolding pinned
pin now msg c db =
    event now msg.id EventType.dispatched (Detail.dispatch c.sim_id c.device_id c.operator c.on_net)
      (record db { messages = update_where (λ m. m.id == msg.id) (pinned now c) db.messages })

-- The command never left the server.
unreachable : ℕ → Message → Choice → Db → Db
unreachable now msg c db =
    set_status now msg.id MessageStatus.queued (text "device unreachable at dispatch")
      (delete_send msg.id (release now c.sim_id msg.segments db))

-- What follows a successful reserve.
hand_over : Env → Message → Choice → State → State
unfolding command_of insert_send pin unreachable deliver_command
hand_over e msg c st =
    let ledger = record st { db = insert_send e msg c st.db } in
    let (tried, delivered) = deliver_command e c.device_id (command_of msg c) ledger in
    if delivered
    then record tried { db = pin (now_of e) msg c tried.db }
    else record tried { db = unreachable (now_of e) msg c tried.db }

routed : Env → Message → Result Choice × Db → State → State
unfolding hand_over
routed e msg (Result.ok c, db) st = hand_over e msg c (record st { db = db })
routed e msg (Result.err RouteError.no_capacity, db) st =
    let woken = wake_for e msg (record st { db = db }) in
    record woken {
      db =
          set_status (now_of e) msg.id MessageStatus.queued (text "no capacity, awaiting SIM")
            woken.db;
    }
routed e msg (Result.err RouteError.db_error, db) st = record st {
  db = set_status (now_of e) msg.id MessageStatus.queued (text "route error") db;
}

-- What `dispatchOne` does with the message that it claimed.
pub process : Env → Message → State → State
unfolding routed
process e msg st =
    if ltb msg.expires_at (now_of e + e.min_remaining_ttl)
    then record st {
      db =
          terminate (now_of e) (some msg) MessageStatus.expired EventType.expired
            (text "insufficient remaining TTL") st.db;
    }
    else routed e msg (route e.engine e.fallback msg st.db) st

-- `dispatchOne`; the result says whether a message was claimed.
unfoldable pub dispatch_one : Env → State → State × Bool
unfolding process
dispatch_one e st = elim (claim e st.db) [
  | none ↦ (st, false)
  | some (msg, db) ↦ (process e msg (record st { db = db }), true)
]

-- `for d.dispatchOne(ctx) {}`, at most `fuel` rounds; each meets an environment of its own.
unfoldable pub drain : ℕ → (ℕ → Env) → State → State × Bool
drain zero envs st = (st, true)
drain (suc fuel) envs st =
    let (st', more) = dispatch_one (envs fuel) st in
    let rest = drain fuel envs st' in if more then rest else (st', false)
