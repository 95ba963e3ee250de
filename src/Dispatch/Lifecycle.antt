-- ===== src/Dispatch/Lifecycle.antt =====
-- How a message changes from call to call (server/internal/dispatch/dispatcher.go): the status moves along
-- the diagram, the attempts are counted, and what the client submitted stays.
use mathlib.Core.Option
use wsms_gateway.Base.{
  ℕ, ◌+◌, ◌≡◌, ap, ◌∙◌, Bool, true, false, ◌&&◌, ◌||◌, some, List, ◌++◌, arith, ◌==◌, by_key,
  by_key-update_where, update_where, first-append_some, if◌then◌else◌,
}
use wsms_gateway.Models.Enums.{MessageStatus, is_queued, is_waiting, is_pinned}
use wsms_gateway.Models.Records.{Message}
use wsms_gateway.Dispatch.State.{message_key}

abbrev pub is_awaiting_ack : MessageStatus → Bool
is_awaiting_ack MessageStatus.awaiting_ack = true
is_awaiting_ack _ = false

abbrev status_index : MessageStatus → ℕ
status_index MessageStatus.queued = 0
status_index MessageStatus.routing = 1
status_index MessageStatus.dispatched = 2
status_index MessageStatus.awaiting_ack = 3
status_index MessageStatus.sent = 4
status_index MessageStatus.sent_unconfirmed = 5
status_index MessageStatus.delivered = 6
status_index MessageStatus.failed = 7
status_index MessageStatus.expired = 8
status_index MessageStatus.cancelled = 9

-- Where a status may come from.
abbrev enters : MessageStatus → MessageStatus → Bool
enters MessageStatus.queued s = true
enters MessageStatus.routing s = false
enters MessageStatus.awaiting_ack s = is_queued s
enters MessageStatus.dispatched s = is_pinned s
enters MessageStatus.sent s = is_pinned s
enters MessageStatus.sent_unconfirmed s = is_pinned s
enters MessageStatus.delivered s = is_pinned s
enters MessageStatus.failed s = true
enters MessageStatus.expired s = is_waiting s
enters MessageStatus.cancelled s = true

-- The diagram between calls: a status stays, or is entered.
abbrev pub is_edge : MessageStatus → MessageStatus → Bool
is_edge s t = status_index s == status_index t || enters t s

abbrev pub SamePayload : Message → Message → Type 0
SamePayload m after = after ≡ record m {
  status = after.status;
  assigned_sim_id = after.assigned_sim_id;
  assigned_device_id = after.assigned_device_id;
  assigned_operator = after.assigned_operator;
  attempts = after.attempts;
  last_error = after.last_error;
  dispatched_at = after.dispatched_at;
  updated_at = after.updated_at;
}

-- What a call makes of a message.
pub record Follows (m after : Message) : Type 0 where
  pub payload : SamePayload m after
  pub edge : is_edge m.status after.status ≡ true
  pub counted :
      after.attempts
      ≡ (if is_queued m.status && is_awaiting_ack after.status then m.attempts + 1 else m.attempts)

-- Each message of one table is in the other, as `R` allows.
abbrev pub Each : (Message → Message → Type 0) → List Message → List Message → Type 0
Each R xs ys =
    (id : ℕ) (m : Message)
    → by_key message_key id xs ≡ some m
    → (m' : Message) × (by_key message_key id ys ≡ some m') × R m m'

pub Follows-refl : (m : Message) → Follows m m
Follows-refl m = ground arith

module _ (R : Message → Message → Type 0) (xs ys : List Message) where
  pub Each-same : ((m : Message) → R m m) → ys ≡ xs → Each R xs ys
  Each-same r same id m found = (m, rw same found, r m)

  pub Each-update :
      (p : Message → Bool) (f : Message → Message)
      → ((m : Message) → message_key (f m) ≡ message_key m)
      → ((m : Message) → R m (if p m then f m else m))
      → ys ≡ update_where p f xs
      → Each R xs ys
  Each-update p f keyed r new id m found = (
    (if p m then f m else m),
    rw new (
        by_key-update_where message_key p f id xs keyed
        ∙ ap (Option.map (λ x. if p x then f x else x)) found),
    r m,
  )

  pub Each-append : (rows : List Message) → ((m : Message) → R m m) → ys ≡ xs ++ rows → Each R xs ys
  Each-append rows r new id m found =
      (m, rw new (first-append_some (λ x. message_key x == id) xs rows found), r m)
