-- ===== src/Admin/Routing/Messages.antt =====
-- A change of the policy leaves messages and ledger.
use wsms_gateway.Base.{arith}
use wsms_gateway.Models.Records.{Text}
use wsms_gateway.Dispatch.Invariant.{SameMessages}
use wsms_gateway.Admin.Console.{Console, ConsoleEnv, User}
use wsms_gateway.Admin.Routing.{save_routing, apply, persist}

module _ (e : ConsoleEnv) (u : User) (c : Console) where
  pub save_routing-Same : (mode op : Text) → SameMessages c.db (save_routing e u mode op c).1.db
  unfolding save_routing apply persist
  save_routing-Same mode op = ground arith
