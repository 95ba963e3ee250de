-- ===== src/Router/Engine/Route.antt =====
-- What `Route` (server/internal/router/router.go) returns, on every branch.
use mathlib.Core.Bool.{false≢true}
use wsms_gateway.Base.{
  ◌≡◌, refl, sym, ◌∙◌, inl, inr, true, false, not, ◌&&◌, [], ◌∷◌, arith, any, In, Bool-cases,
}
use wsms_gateway.Models.Enums.{
  RoutingPolicy, FallbackMode, operator_eq, operator_eq_iff, is_unknown,
}
use wsms_gateway.Models.Records.{Sim, Message, Db}
use wsms_gateway.Router.Engine.{
  World, Ordering, FallbackConfig, Choice, RouteError, Result, eligible, segments_of, is_strict,
  is_default_op, last_order, before, choice_of, matches, tries_on_net, try_on_net, try_default,
  try_last, route,
}
use wsms_gateway.Router.Engine.Reserve.{reserve-Reserves}
use wsms_gateway.Router.Engine.Preference.{
  LeastLoaded, Drawn, Preferred, AsksOnNet, HasDefault, NobodyOf, taken-LeastLoaded, taken-Drawn,
}
use wsms_gateway.Router.Engine.Promise.{
  Routes, Chooses, Attempt, eligible-operator, marked-Attempt, Attempt-mono, or_else-Attempt,
}

module _ (w : World) (fb : FallbackConfig) (msg : Message) (db : Db) where
  NobodyOnNet : Type 0
  NobodyOnNet = AsksOnNet w fb msg db → NobodyOf w fb msg db msg.target_operator

  NobodyByDefault : Type 0
  NobodyByDefault =
      is_strict msg.routing_policy ≡ false → HasDefault w fb msg db → NobodyOf w fb msg db fb.op

  Nobody : Type 0
  Nobody =
      is_strict msg.routing_policy ≡ false
      → any (eligible w db.devices [] (segments_of msg.segments)) db.sims ≡ false

  asks :
      (tries_on_net msg ≡ true → AsksOnNet w fb msg db)
      × (AsksOnNet w fb msg db → tries_on_net msg ≡ true)
  unfolding tries_on_net
  asks = (λ t. ((λ e. ground arith), ground arith), λ (any_operator, known). ground arith)

  not_strict :
      is_strict msg.routing_policy ≡ false → msg.routing_policy ≡ RoutingPolicy.on_net_strict → ⊥
  not_strict f e = false≢true (sym f ∙ rw e refl)

  try_on_net-Attempt : Attempt w msg db (Preferred w fb msg db) NobodyOnNet (try_on_net w msg db)
  unfolding try_on_net NobodyOnNet
  try_on_net-Attempt = elim (Bool-cases (tries_on_net msg)) [
    | inl t ↦ rw t (
        Attempt-mono w msg db _ _ (λ none_left _. none_left)
          (marked-Attempt w msg db (msg.target_operator ∷ []) _ _ _ _
            (λ s h. on_net_choice s (eligible-operator w db.devices _ _ s h))
            (λ s fits least. Preferred.on_net (asks.0 t) (taken-LeastLoaded w _ _ db s fits least))
            (reserve-Reserves w 0 _ _ _ db)))
    | inr f ↦ rw f (refl, λ a. absurd (false≢true (sym f ∙ asks.1 a)))
  ]
    where
      on_net_choice :
          (s : Sim)
          → operator_eq s.operator msg.target_operator ≡ true
          → (true ≡ operator_eq s.operator msg.target_operator)
            × (is_strict msg.routing_policy ≡ true → s.operator ≡ msg.target_operator)
      on_net_choice s e = (sym e, λ _. (operator_eq_iff s.operator msg.target_operator).0 e)

  -- Without a strict policy nothing is promised of the operator.
  marked :
      (s : Sim)
      → is_strict msg.routing_policy ≡ false
      → (matches msg (choice_of s) ≡ operator_eq s.operator msg.target_operator)
        × (is_strict msg.routing_policy ≡ true → s.operator ≡ msg.target_operator)
  marked s f = (refl, λ t. absurd (false≢true (sym f ∙ t)))

  has_default : (is_default_op fb.mode && not (is_unknown fb.op)) ≡ true → HasDefault w fb msg db
  has_default h = (ground arith, ground arith)

  no_default :
      (is_default_op fb.mode && not (is_unknown fb.op)) ≡ false → HasDefault w fb msg db → ⊥
  no_default h (mode, known) = ground arith

  try_default-Attempt :
      NobodyOnNet
      → Attempt w msg db (Preferred w fb msg db) NobodyByDefault (try_default w fb msg db)
  unfolding try_default NobodyOnNet NobodyByDefault
  try_default-Attempt missed = elim (Bool-cases (is_strict msg.routing_policy)) [
    | inl t ↦ rw t (refl, λ f. absurd (false≢true (sym f)))
    | inr f ↦ elim (Bool-cases (is_default_op fb.mode && not (is_unknown fb.op))) [
      | inl used ↦
          rw (f, used)
            (Attempt-mono w msg db _ _ (λ none_left _ _. none_left)
              (marked-Attempt w msg db (fb.op ∷ []) _ _ _ _ (λ s _. marked s f)
                (λ s fits least.
                  Preferred.by_default missed (not_strict f) (has_default used)
                    (taken-LeastLoaded w _ _ db s fits least))
                (reserve-Reserves w 1 _ _ _ db)))
      | inr unused ↦ rw (f, unused) (refl, λ _ d. absurd (no_default unused d))
    ]
  ]

  -- The last statement ranks by the mode.
  ranked :
      (s : Sim)
      → eligible w db.devices [] (segments_of msg.segments) s ≡ true
      → ((y : Sim)
          → In y db.sims
          → eligible w db.devices [] (segments_of msg.segments) y ≡ true
          → before w (last_order fb.mode) y s ≡ false)
      → (fb.mode ≡ FallbackMode.random → Drawn w (segments_of msg.segments) db s)
        × ((fb.mode ≡ FallbackMode.random → ⊥) → LeastLoaded w [] (segments_of msg.segments) db s)
  ranked s fits least = (
    λ e. taken-Drawn w _ db s fits (rw e at least),
    λ other. taken-LeastLoaded w _ _ db s fits (rw (by_mode fb.mode other) at least),
  )
    where
      by_mode :
          (m : FallbackMode) → (m ≡ FallbackMode.random → ⊥) → last_order m ≡ Ordering.least_loaded
      by_mode FallbackMode.random other = absurd (other refl)
      by_mode FallbackMode.default_op other = refl
      by_mode FallbackMode.least_loaded other = refl

  try_last-Attempt :
      NobodyOnNet
      → NobodyByDefault
      → Attempt w msg db (Preferred w fb msg db) Nobody (try_last w fb msg db)
  unfolding try_last Nobody NobodyOnNet NobodyByDefault
  try_last-Attempt missed missed' = elim (Bool-cases (is_strict msg.routing_policy)) [
    | inl t ↦ rw t (refl, λ f. cc)
    | inr f ↦ rw f (
        Attempt-mono w msg db _ _ (λ none_left _. none_left)
          (marked-Attempt w msg db [] _ _ _ _ (λ s _. marked s f)
            (λ s fits least.
              let (drawn, loaded) = ranked s fits least in
              Preferred.last missed (not_strict f) (missed' f) drawn loaded)
            (reserve-Reserves w 2 _ _ _ db)))
  ]

Attempt-Chooses :
    (w : World) (fb : FallbackConfig) (msg : Message) (db : Db) (r : Result Choice × Db)
    → Attempt w msg db
        (Preferred w fb msg db)
        (NobodyOnNet w fb msg db × (NobodyByDefault w fb msg db × Nobody w fb msg db))
        r
    → Chooses w fb msg db r
unfolding NobodyOnNet Nobody
Attempt-Chooses w fb msg db (Result.ok c, after) a = a
Attempt-Chooses w fb msg db (Result.err RouteError.no_capacity, after) a = record {
  unchanged = a.0;
  nobody = a.1.1.1;
  nobody_on_net = λ t. a.1.0 ((asks w fb msg db).0 t);
}
Attempt-Chooses w fb msg db (Result.err RouteError.db_error, after) a = a

-- `Route` returns an eligible SIM whose operator is the target's under ON_NET_STRICT, marks it
-- on-net exactly when the operators agree, and charges it and nothing else. The SIM is of the
-- target's operator where the policy asks for that, the operator is known and such a SIM is
-- eligible; else of the default operator where one is set and such a SIM is eligible; else any. Of
-- the SIMs in question it is the least loaded one, in the last attempt under RANDOM the one with the
-- least drawn key. "No capacity" leaves the tables unchanged and means that no SIM is eligible, or
-- under ON_NET_STRICT none of the target's operator, where that is known. A database error leaves
-- the tables unchanged.
pub route-Chooses :
    (w : World) (fb : FallbackConfig) (msg : Message) (db : Db)
    → Chooses w fb msg db (route w fb msg db)
unfolding route
route-Chooses w fb msg db = Attempt-Chooses w fb msg db _ (
    or_else-Attempt w msg db _ _ _ (try_on_net w msg db) _ (try_on_net-Attempt w fb msg db)
      (λ missed.
        or_else-Attempt w msg db _ _ _ (try_default w fb msg db) _
          (try_default-Attempt w fb msg db missed) (try_last-Attempt w fb msg db missed)))

Chooses-Routes :
    (w : World) (fb : FallbackConfig) (msg : Message) (db : Db) (r : Result Choice × Db)
    → Chooses w fb msg db r
    → Routes w msg db r
Chooses-Routes w fb msg db (Result.ok c, after) a = a.0
Chooses-Routes w fb msg db (Result.err RouteError.no_capacity, after) a = a
Chooses-Routes w fb msg db (Result.err RouteError.db_error, after) a = a

-- The same without the preference.
pub route-Routes :
    (w : World) (fb : FallbackConfig) (msg : Message) (db : Db)
    → Routes w msg db (route w fb msg db)
route-Routes w fb msg db = Chooses-Routes w fb msg db _ (route-Chooses w fb msg db)
