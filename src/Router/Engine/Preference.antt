-- ===== src/Router/Engine/Preference.antt =====
-- Which SIM `Route` (server/internal/router/router.go) prefers: the order of its attempts, and the
-- order of the rows within each.
use wsms_gateway.Base.{
  ℕ, ◌≤◌, ◌≡◌, inl, inr, Option-cases, false, true, Option, none, some, List, [], ◌∷◌, arith, any,
  In,
}
use wsms_gateway.Models.Enums.{Operator, RoutingPolicy, FallbackMode, is_unknown}
use wsms_gateway.Models.Records.{Sim, Message, Db}
use wsms_gateway.Router.Engine.{World, Ordering, FallbackConfig, eligible, before, segments_of}

-- A SIM that was never used stands before all others, and then one that was used earlier.
abbrev pub NotEarlier : Option ℕ → Option ℕ → Type 0
NotEarlier t none = Unit
NotEarlier none (some u) = ⊥
NotEarlier (some t) (some u) = u ≤ t

-- An eligible SIM of the operators with the smallest window; of these one with the best health, and of
-- these one that was used longest ago.
pub record LeastLoaded (w : World) (ops : List Operator) (seg : ℕ) (db : Db) (s : Sim)
    : Type 0 where
  pub fits : eligible w db.devices ops seg s ≡ true
  pub window :
      (y : Sim)
      → In y db.sims
      → eligible w db.devices ops seg y ≡ true
      → s.sent_window ≤ y.sent_window
  pub health :
      (y : Sim)
      → In y db.sims
      → eligible w db.devices ops seg y ≡ true
      → y.sent_window ≡ s.sent_window
      → y.health_score ≤ s.health_score
  pub used :
      (y : Sim)
      → In y db.sims
      → eligible w db.devices ops seg y ≡ true
      → y.sent_window ≡ s.sent_window
      → y.health_score ≡ s.health_score
      → NotEarlier y.last_used_at s.last_used_at

-- An eligible SIM with the least key that `random()` drew.
pub record Drawn (w : World) (seg : ℕ) (db : Db) (s : Sim) : Type 0 where
  pub fits : eligible w db.devices [] seg s ≡ true
  pub key :
      (y : Sim)
      → In y db.sims
      → eligible w db.devices [] seg y ≡ true
      → w.random s.id ≤ w.random y.id

not_earlier :
    (w : World) (y s : Sim)
    → before w Ordering.least_loaded y s ≡ false
    → y.sent_window ≡ s.sent_window
    → y.health_score ≡ s.health_score
    → NotEarlier y.last_used_at s.last_used_at
unfolding before
not_earlier w y s h e k = elim (Option-cases s.last_used_at) [
  | inl never ↦ rw never tt
  | inr (u, at_u) ↦ elim (Option-cases y.last_used_at) [
    | inl never' ↦ absurd (ground arith)
    | inr (t, at_t) ↦ rw (at_u, at_t) (ground arith)
  ]
]

-- What the order of a statement says of the row that it takes.
pub taken-LeastLoaded :
    (w : World) (ops : List Operator) (seg : ℕ) (db : Db) (s : Sim)
    → eligible w db.devices ops seg s ≡ true
    → ((y : Sim)
        → In y db.sims
        → eligible w db.devices ops seg y ≡ true
        → before w Ordering.least_loaded y s ≡ false)
    → LeastLoaded w ops seg db s
unfolding before
taken-LeastLoaded w ops seg db s fits least = record {
  fits = fits;
  window = λ y i t. let h = least y i t in ground arith;
  health = λ y i t e. let h = least y i t in ground arith;
  used = λ y i t e k. not_earlier w y s (least y i t) e k;
}

pub taken-Drawn :
    (w : World) (seg : ℕ) (db : Db) (s : Sim)
    → eligible w db.devices [] seg s ≡ true
    → ((y : Sim)
        → In y db.sims
        → eligible w db.devices [] seg y ≡ true
        → before w Ordering.random y s ≡ false)
    → Drawn w seg db s
unfolding before
taken-Drawn w seg db s fits least = record {
  fits = fits;
  key = λ y i t. let h = least y i t in ground arith;
}

module _ (w : World) (fb : FallbackConfig) (msg : Message) (db : Db) where
  -- No SIM of an operator is eligible.
  abbrev pub NobodyOf : Operator → Type 0
  NobodyOf op = any (eligible w db.devices (op ∷ []) (segments_of msg.segments)) db.sims ≡ false

  -- The message asks for a SIM of its own operator, which is known.
  abbrev pub AsksOnNet : Type 0
  AsksOnNet =
      (msg.routing_policy ≡ RoutingPolicy.any → ⊥) × (is_unknown msg.target_operator ≡ false)

  -- The fallback names an operator, which is known.
  abbrev pub HasDefault : Type 0
  HasDefault = (fb.mode ≡ FallbackMode.default_op) × (is_unknown fb.op ≡ false)

  -- The attempt that takes a SIM: one of the target's operator; or, where there is none or none is
  -- asked for, and off-net is allowed, one of the default operator; or, where there is none of that
  -- either or no such operator is set, any.
  pub data Preferred (s : Sim) : Type 0 where
    on_net :
        AsksOnNet
        → LeastLoaded w (msg.target_operator ∷ []) (segments_of msg.segments) db s
        → Preferred s
    by_default :
        (AsksOnNet → NobodyOf msg.target_operator)
        → (msg.routing_policy ≡ RoutingPolicy.on_net_strict → ⊥)
        → HasDefault
        → LeastLoaded w (fb.op ∷ []) (segments_of msg.segments) db s
        → Preferred s
    last :
        (AsksOnNet → NobodyOf msg.target_operator)
        → (msg.routing_policy ≡ RoutingPolicy.on_net_strict → ⊥)
        → (HasDefault → NobodyOf fb.op)
        → (fb.mode ≡ FallbackMode.random → Drawn w (segments_of msg.segments) db s)
        → ((fb.mode ≡ FallbackMode.random → ⊥) → LeastLoaded w [] (segments_of msg.segments) db s)
        → Preferred s
