-- ===== src/Dispatch/State.antt =====
-- server/internal/dispatch/dispatcher.go: the state that the dispatcher works on, what it takes
-- from outside, and the statements that its handlers share.
pub mod Advance
use wsms_gateway.Base.{
  ℕ, Bool, ◌&&◌, Option, none, some, List, [], ◌∷◌, ◌++◌, ◌==◌, any, update_where, delete_where,
  by_key, if◌then◌else◌,
}
use wsms_gateway.Models.Enums.{MessageStatus, EventType, is_pinned}
use wsms_gateway.Models.Records.{Text, Message, Detail, MessageSend, Db}
use wsms_gateway.Ws.Protocol.{SendCommandData}
use wsms_gateway.Ws.Hub.{Hub}
use wsms_gateway.Fleet.{Ids}
use wsms_gateway.Router.Engine.{World, FallbackConfig, release}

-- The tables, the hub, the throttle of the wake pushes, and what was handed to FCM.
pub record State : Type 0 where
  pub db : Db
  pub hub : Hub
  pub last_wake : List (ℕ × ℕ)
  pub pushed : List (Text × SendCommandData)

-- What one call meets: the clock and the database (`engine`), the message rows that other workers
-- hold locked, the choice of a `select`, whether a waker is set and which pushes it accepts, the
-- ids of new rows, and the settings.
pub record Env : Type 0 where
  pub engine : World
  pub locked_message : ℕ → Bool
  pub pick : Bool
  pub has_waker : Bool
  pub push_accepted : Text → Bool
  pub ids : Ids
  pub fallback : FallbackConfig
  pub min_remaining_ttl : ℕ
  pub delivery_wait : ℕ
  pub ledger_stored : Bool

abbrev pub now_of : Env → ℕ
now_of e = e.engine.now

abbrev pub message_key : Message → ℕ
message_key m = m.id

abbrev pub send_key : MessageSend → ℕ
send_key s = s.message_id

abbrev pub find_message : ℕ → Db → Option Message
find_message id db = by_key message_key id db.messages

abbrev pub with_status : ℕ → MessageStatus → Text → Message → Message
with_status now status reason m = record m {
  status = status;
  updated_at = now;
  last_error = reason;
}

abbrev pub event : ℕ → ℕ → EventType → Detail → Db → Db
event now id type detail db = record db {
  events =
      db.events
      ++ record { message_id = id; event_type = type; detail = detail; created_at = now } ∷ [];
}

unfoldable pub set_status : ℕ → ℕ → MessageStatus → Text → Db → Db
set_status now id status reason db = record db {
  messages = update_where (λ m. m.id == id) (with_status now status reason) db.messages;
}

-- `terminate`; a message that was not found has the id "".
unfoldable pub terminate : ℕ → Option Message → MessageStatus → EventType → Text → Db → Db
unfolding set_status
terminate now none status ev reason db = db
terminate now (some m) status ev reason db =
    event now m.id ev (Detail.reason reason) (set_status now m.id status reason db)

unfoldable pub advance_if_pinned : ℕ → ℕ → MessageStatus → EventType → Text → Db → Db
advance_if_pinned now id to ev reason db =
    let pinned : Message → Bool = λ m. m.id == id && is_pinned m.status in
    let moved = record db {
      messages = update_where pinned (with_status now to reason) db.messages;
    } in
    if any pinned db.messages then event now id ev (Detail.reason reason) moved else moved

-- `Release`, where the message has a SIM.
abbrev pub release_assigned : ℕ → Option ℕ → ℕ → Db → Db
release_assigned now none segments db = db
release_assigned now (some sim) segments db = release now sim segments db

abbrev pub delete_send : ℕ → Db → Db
delete_send id db = record db { sends = delete_where (λ s. s.message_id == id) db.sends }
