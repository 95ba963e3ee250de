-- ===== src/Retention.antt =====
-- server/internal/maintenance/retention.go: the purge of messages past the retention window. The
-- cutoff is a time in milliseconds.
pub mod Orphans
pub mod Preserves
pub mod Startup
mod Tests
use wsms_gateway.Base.{ℕ, zero, suc, Bool, ◌&&◌, List, ltb, ◌==◌, any, delete_where}
use wsms_gateway.Base.Int.{ℤ, pos, negsuc}
use wsms_gateway.Models.Records.{Message, MessageEvent, MessageSend, WebhookDelivery, Db}

abbrev pub is_old : ℕ → Message → Bool
is_old cutoff m = ltb m.created_at cutoff

-- `message_id IN (SELECT id FROM messages WHERE created_at < ?)`.
abbrev pub in_old : ℕ → List Message → ℕ → Bool
in_old cutoff messages id = any (λ (m : Message). m.id == id && is_old cutoff m) messages

-- The four statements in their order: children first, then messages.
unfoldable pub purge : ℕ → Db → Db
purge cutoff db = record db {
  events = delete_where (λ (v : MessageEvent). in_old cutoff db.messages v.message_id) db.events;
  deliveries =
      delete_where (λ (w : WebhookDelivery). in_old cutoff db.messages w.message_id) db.deliveries;
  sends = delete_where (λ (s : MessageSend). in_old cutoff db.messages s.message_id) db.sends;
  messages = delete_where (is_old cutoff) db.messages;
}

-- `Run` up to its first tick: a purge at once, unless the days to keep are 0 or less. `cutoff` is
-- the time so many days ago.
unfoldable pub run_start : ℤ → (ℕ → ℕ) → Db → Db
unfolding purge
run_start (pos zero) cutoff db = db
run_start (pos (suc n)) cutoff db = purge (cutoff (suc n)) db
run_start (negsuc n) cutoff db = db
