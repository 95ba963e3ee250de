-- ===== src/Router/Engine/Promise.antt =====
-- What `Route` (server/internal/router/router.go) promises of what it returns, and of each of its
-- attempts.
use wsms_gateway.Base.{ℕ, ◌≡◌, ap, ◌∙◌, Bool, true, false, List, [], ◌∷◌, arith, any, In}
use wsms_gateway.Models.Enums.{Operator, operator_eq}
use wsms_gateway.Models.Records.{Device, Sim, Message, Db}
use wsms_gateway.Router.Engine.{
  World, Ordering, FallbackConfig, Choice, RouteError, Result, eligible, segments_of, is_strict,
  before, choice_of, charge_sim, with_on_net, or_else, tries_on_net,
}
use wsms_gateway.Router.Engine.Reserve.{Reserves}
use wsms_gateway.Router.Engine.Preference.{Preferred}

-- What `Route` promises of a choice.
pub record Routed (w : World) (msg : Message) (db : Db) (c : Choice) (after : Db) : Type 0 where
  pub sim : Sim
  pub row : In sim db.sims
  pub fits : eligible w db.devices [] (segments_of msg.segments) sim ≡ true
  pub strict : is_strict msg.routing_policy ≡ true → sim.operator ≡ msg.target_operator
  pub chosen : record c { on_net = false } ≡ choice_of sim
  pub on_net : c.on_net ≡ operator_eq sim.operator msg.target_operator
  pub charged : after ≡ charge_sim w (segments_of msg.segments) db sim.id

-- What it promises where it finds no SIM.
pub record NoCapacity (w : World) (msg : Message) (db after : Db) : Type 0 where
  pub unchanged : after ≡ db
  pub nobody :
      is_strict msg.routing_policy ≡ false
      → any (eligible w db.devices [] (segments_of msg.segments)) db.sims ≡ false
  pub nobody_on_net :
      tries_on_net msg ≡ true
      → any (eligible w db.devices (msg.target_operator ∷ []) (segments_of msg.segments)) db.sims
        ≡ false

abbrev pub Routes : World → Message → Db → Result Choice × Db → Type 0
Routes w msg db (Result.ok c, after) = Routed w msg db c after
Routes w msg db (Result.err RouteError.no_capacity, after) = NoCapacity w msg db after
Routes w msg db (Result.err RouteError.db_error, after) = after ≡ db

-- With the SIM that it prefers.
abbrev pub Chooses : World → FallbackConfig → Message → Db → Result Choice × Db → Type 0
Chooses w fb msg db (Result.ok c, after) =
    (t : Routed w msg db c after) × Preferred w fb msg db t.sim
Chooses w fb msg db (Result.err RouteError.no_capacity, after) = NoCapacity w msg db after
Chooses w fb msg db (Result.err RouteError.db_error, after) = after ≡ db

eligible-any_operator :
    (w : World) (ds : List Device) (ops : List Operator) (seg : ℕ) (s : Sim)
    → eligible w ds ops seg s ≡ true
    → eligible w ds [] seg s ≡ true
unfolding eligible
eligible-any_operator w ds [] seg s h = h
eligible-any_operator w ds (o ∷ os) seg s h = ground arith

pub eligible-operator :
    (w : World) (ds : List Device) (o : Operator) (seg : ℕ) (s : Sim)
    → eligible w ds (o ∷ []) seg s ≡ true
    → operator_eq s.operator o ≡ true
unfolding eligible
eligible-operator w ds o seg s h = ground arith

-- One attempt: a choice as promised, whose SIM is as in `Chosen`, or nothing changed and `Missed`.
abbrev pub Attempt : World → Message → Db → (Sim → Type 0) → Type 0 → Result Choice × Db → Type 0
Attempt w msg db Chosen Missed (Result.ok c, after) = (t : Routed w msg db c after) × Chosen t.sim
Attempt w msg db Chosen Missed (Result.err RouteError.no_capacity, after) = (after ≡ db) × Missed
Attempt w msg db Chosen Missed (Result.err RouteError.db_error, after) = after ≡ db

-- A statement whose choice is marked by `f` is such an attempt.
pub marked-Attempt :
    (w : World) (msg : Message) (db : Db) (ops : List Operator) (o : Ordering) (f : Choice → Bool)
    (Chosen : Sim → Type 0) (r : Result Choice × Db)
    → ((s : Sim)
        → eligible w db.devices ops (segments_of msg.segments) s ≡ true
        → (f (choice_of s) ≡ operator_eq s.operator msg.target_operator)
          × (is_strict msg.routing_policy ≡ true → s.operator ≡ msg.target_operator))
    → ((s : Sim)
        → eligible w db.devices ops (segments_of msg.segments) s ≡ true
        → ((y : Sim)
            → In y db.sims
            → eligible w db.devices ops (segments_of msg.segments) y ≡ true
            → before w o y s ≡ false)
        → Chosen s)
    → Reserves w ops (segments_of msg.segments) o db r
    → Attempt w msg db Chosen
        (any (eligible w db.devices ops (segments_of msg.segments)) db.sims ≡ false)
        (with_on_net f r)
marked-Attempt w msg db ops o f Chosen (Result.ok c, after) h g t = (
  record {
    sim = t.sim;
    row = t.row;
    fits = eligible-any_operator w db.devices ops (segments_of msg.segments) t.sim t.fits;
    strict = (h t.sim t.fits).1;
    chosen = ap {A = Choice} (λ d. record d { on_net = false }) t.chosen;
    on_net = ap f t.chosen ∙ (h t.sim t.fits).0;
    charged = t.charged;
  },
  g t.sim t.fits t.least,
)
marked-Attempt w msg db ops o f Chosen (Result.err RouteError.no_capacity, after) h g t = t
marked-Attempt w msg db ops o f Chosen (Result.err RouteError.db_error, after) h g t = t

pub Attempt-mono :
    (w : World) (msg : Message) (db : Db) (Chosen : Sim → Type 0) {M N : Type 0}
    (r : Result Choice × Db)
    → (M → N)
    → Attempt w msg db Chosen M r
    → Attempt w msg db Chosen N r
Attempt-mono w msg db Chosen (Result.ok c, after) g a = a
Attempt-mono w msg db Chosen (Result.err RouteError.no_capacity, after) g a = (a.0, g a.1)
Attempt-mono w msg db Chosen (Result.err RouteError.db_error, after) g a = a

-- The second attempt runs on unchanged tables, where the first one missed.
pub or_else-Attempt :
    (w : World) (msg : Message) (db : Db) (Chosen : Sim → Type 0) (M N : Type 0)
    (r : Result Choice × Db) (next : Db → Result Choice × Db)
    → Attempt w msg db Chosen M r
    → (M → Attempt w msg db Chosen N (next db))
    → Attempt w msg db Chosen (M × N) (or_else r next)
or_else-Attempt w msg db Chosen M N (Result.ok c, after) next a b = a
or_else-Attempt w msg db Chosen M N (Result.err RouteError.no_capacity, after) next a b =
    rw a.0 (Attempt-mono w msg db Chosen (next db) (λ n. (a.1, n)) (b a.1))
or_else-Attempt w msg db Chosen M N (Result.err RouteError.db_error, after) next a b = a
