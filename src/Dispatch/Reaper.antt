-- ===== src/Dispatch/Reaper.antt =====
-- server/internal/dispatch/dispatcher.go: one tick of the reaper.
pub mod Effects
pub mod Follows
pub mod Settled
pub mod Preserves
use wsms_gateway.Base.{ℕ, ◌+◌, Bool, false, ◌&&◌, Option, none, some, ltb, leb, update_where}
use wsms_gateway.Models.Enums.{MessageStatus, is_waiting, is_routing, is_pinned}
use wsms_gateway.Models.Records.{Message, Db}
use wsms_gateway.Text.{text}
use wsms_gateway.Dispatch.State.{with_status}

-- QUEUED or ROUTING past the TTL.
pub is_overdue : ℕ → Message → Bool
is_overdue now m = is_waiting m.status && leb m.expires_at now

-- ROUTING for more than two minutes.
pub is_stuck : ℕ → Message → Bool
is_stuck now m = is_routing m.status && ltb (m.updated_at + 120000) now

-- `t < now - gap`, which for NULL does not hold.
abbrev is_before : Option ℕ → ℕ → ℕ → Bool
is_before none gap now = false
is_before (some t) gap now = ltb (t + gap) now

-- Pinned, and handed over more than the delivery wait ago.
pub is_unconfirmed : ℕ → ℕ → Message → Bool
is_unconfirmed wait now m = is_pinned m.status && is_before m.dispatched_at wait now

pub expire : ℕ → Message → Message
expire now = with_status now MessageStatus.expired (text "ttl expired before dispatch")

pub recover : ℕ → Message → Message
recover now m = record m { status = MessageStatus.queued; updated_at = now }

pub give_up : ℕ → Message → Message
give_up now =
    with_status now MessageStatus.sent_unconfirmed (text "no delivery confirmation within window")

unfoldable pub reap : ℕ → ℕ → Db → Db
unfolding is_overdue is_stuck is_unconfirmed expire recover give_up
reap wait now db = record db {
  messages = update_where (is_unconfirmed wait now) (give_up now) (
      update_where (is_stuck now) (recover now)
        (update_where (is_overdue now) (expire now) db.messages));
}
