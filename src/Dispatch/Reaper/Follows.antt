-- ===== src/Dispatch/Reaper/Follows.antt =====
-- A tick of the reaper (server/internal/dispatch/dispatcher.go) on the diagram of the statuses.
use mathlib.Core.Option
use wsms_gateway.Base.{ℕ, ap, ◌∙◌, arith}
use wsms_gateway.Models.Records.{Message, Db}
use wsms_gateway.Dispatch.Lifecycle.{Follows, Each}
use wsms_gateway.Dispatch.Reaper.{
  is_overdue, is_stuck, is_unconfirmed, expire, recover, give_up, reap,
}
use wsms_gateway.Dispatch.Reaper.Effects.{reaped, find-reap}

reaped-Follows : (wait now : ℕ) (m : Message) → Follows m (reaped wait now m)
unfolding is_overdue is_stuck is_unconfirmed expire recover give_up
reaped-Follows wait now m = ground arith

-- Each message follows the diagram over a tick.
pub reap-Follows : (wait now : ℕ) (db : Db) → Each Follows db.messages (reap wait now db).messages
reap-Follows wait now db id m found = (
  reaped wait now m,
  find-reap wait now id db ∙ ap (Option.map (reaped wait now)) found,
  reaped-Follows wait now m,
)
