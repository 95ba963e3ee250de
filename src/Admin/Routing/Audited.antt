-- ===== src/Admin/Routing/Audited.antt =====
-- The audit trail of the off-net policy (saveRouting of server/internal/admin/actions.go).
use wsms_gateway.Base.{refl, Bool, Option, none, some}
use wsms_gateway.Models.Records.{Text}
use wsms_gateway.Admin.Console.{Console, ConsoleEnv, User}
use wsms_gateway.Admin.Trail.{Trace, untraced, traced_once}
use wsms_gateway.Router.Engine.{FallbackConfig}
use wsms_gateway.Admin.Routing.{save_routing, apply, settings_id}

module _ (e : ConsoleEnv) (u : User) (made : Bool) (c : Console) where
  apply-Trace : (fb : Option FallbackConfig) → Trace e u made c (apply e u fb c).1
  unfolding apply
  apply-Trace none = untraced e u made c
  apply-Trace (some fb) = traced_once e u made c _ settings_id _ _ refl refl

  pub save_routing-Trace : (mode op : Text) → Trace e u made c (save_routing e u mode op c).1
  unfolding save_routing
  save_routing-Trace mode op = apply-Trace _
