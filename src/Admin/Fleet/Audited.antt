-- ===== src/Admin/Fleet/Audited.antt =====
-- The audit trail of the actions on SIMs and devices (server/internal/admin/actions.go).
use wsms_gateway.Base.{ℕ, refl, inl, inr, Bool, Option, none, some, Bool-cases}
use wsms_gateway.Models.Records.{Text, is_empty}
use wsms_gateway.Admin.Console.{Console, ConsoleEnv, User}
use wsms_gateway.Admin.Trail.{Trace, untraced, traced_once}
use wsms_gateway.Base.Int.{ℤ, pos, negsuc}
use wsms_gateway.Text.{trim_space}
use wsms_gateway.Admin.Fleet.{
  sim_disable, sim_enable, sim_cooldown, set_quota, sim_quota, device_rescan, device_rename,
  device_delete,
}

module _ (e : ConsoleEnv) (u : User) (made : Bool) (c : Console) where
  pub sim_disable-Trace : (id : ℕ) → Trace e u made c (sim_disable e u id c).1
  unfolding sim_disable
  sim_disable-Trace id = traced_once e u made c _ id _ _ refl refl

  pub sim_enable-Trace : (id : ℕ) → Trace e u made c (sim_enable e u id c).1
  unfolding sim_enable
  sim_enable-Trace id = traced_once e u made c _ id _ _ refl refl

  pub sim_cooldown-Trace : (id : ℕ) → Trace e u made c (sim_cooldown e u id c).1
  unfolding sim_cooldown
  sim_cooldown-Trace id = traced_once e u made c _ id _ _ refl refl

  set_quota-Trace : (id : ℕ) (q : Option ℤ) → Trace e u made c (set_quota e u id q c).1
  unfolding set_quota
  set_quota-Trace id none = untraced e u made c
  set_quota-Trace id (some (negsuc q)) = untraced e u made c
  set_quota-Trace id (some (pos q)) = traced_once e u made c _ id _ _ refl refl

  pub sim_quota-Trace : (id : ℕ) (text : Text) → Trace e u made c (sim_quota e u id text c).1
  unfolding sim_quota
  sim_quota-Trace id text = set_quota-Trace id _

  pub device_rescan-Trace : (id : ℕ) → Trace e u made c (device_rescan e u id c).1
  unfolding device_rescan
  device_rescan-Trace id = traced_once e u made c _ id _ _ refl refl

  pub device_delete-Trace : (id : ℕ) → Trace e u made c (device_delete e u id c).1
  unfolding device_delete
  device_delete-Trace id = traced_once e u made c _ id _ _ refl refl

  pub device_rename-Trace :
      (id : ℕ) (text : Text) → Trace e u made c (device_rename e u id text c).1
  unfolding device_rename
  device_rename-Trace id text = elim (Bool-cases (is_empty (trim_space text))) [
    | inl q ↦ rw q (untraced e u made c)
    | inr q ↦ rw q (traced_once e u made c _ id _ _ refl refl)
  ]
