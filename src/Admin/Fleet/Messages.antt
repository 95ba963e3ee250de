-- ===== src/Admin/Fleet/Messages.antt =====
-- The actions on SIMs and devices (server/internal/admin/actions.go) leave messages and ledger.
use wsms_gateway.Base.{ℕ, arith}
use wsms_gateway.Models.Records.{Text}
use wsms_gateway.Dispatch.Invariant.{SameMessages}
use wsms_gateway.Admin.Console.{Console, ConsoleEnv, User}
use wsms_gateway.Admin.Fleet.{
  sim_disable, sim_enable, sim_cooldown, set_quota, sim_quota, device_rescan, device_rename,
  unlink_device, device_delete,
}

module _ (e : ConsoleEnv) (u : User) (c : Console) where
  pub sim_disable-Same : (id : ℕ) → SameMessages c.db (sim_disable e u id c).1.db
  unfolding sim_disable
  sim_disable-Same id = ground arith

  pub sim_enable-Same : (id : ℕ) → SameMessages c.db (sim_enable e u id c).1.db
  unfolding sim_enable
  sim_enable-Same id = ground arith

  pub sim_cooldown-Same : (id : ℕ) → SameMessages c.db (sim_cooldown e u id c).1.db
  unfolding sim_cooldown
  sim_cooldown-Same id = ground arith

  pub sim_quota-Same : (id : ℕ) (text : Text) → SameMessages c.db (sim_quota e u id text c).1.db
  unfolding sim_quota set_quota
  sim_quota-Same id text = ground arith

  pub device_rescan-Same : (id : ℕ) → SameMessages c.db (device_rescan e u id c).1.db
  unfolding device_rescan
  device_rescan-Same id = ground arith

  pub device_rename-Same :
      (id : ℕ) (text : Text) → SameMessages c.db (device_rename e u id text c).1.db
  unfolding device_rename
  device_rename-Same id text = ground arith

  pub device_delete-Same : (id : ℕ) → SameMessages c.db (device_delete e u id c).1.db
  unfolding device_delete unlink_device
  device_delete-Same id = ground arith
