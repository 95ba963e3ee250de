-- ===== src/Router/Engine.antt =====
-- server/internal/router/router.go: `Route`, `reserve` and `Release`. Each SQL statement is one
-- step on the tables. What a statement meets is a `World`: the clock, the rows that other
-- transactions hold locked (SKIP LOCKED passes over them), the keys that `random()` draws, and for
-- each of the three statements of `Route` whether the database answers.
pub mod Reserve
pub mod Preference
pub mod Promise
pub mod Route
pub mod Quota
mod Tests
use wsms_gateway.Base.{
  ℕ, ◌+◌, ◌-◌, Bool, true, false, not, ◌&&◌, ◌||◌, Option, none, some, List, [], ◌∷◌, any,
  update_where, ltb, leb, ◌==◌, if◌then◌else◌, max_of,
}
use wsms_gateway.Models.Enums.{
  Operator, RoutingPolicy, FallbackMode, operator_eq, is_unknown, is_disabled, is_online, is_ready,
}
use wsms_gateway.Models.Records.{Device, Sim, Message, Db, is_empty}

pub record World : Type 0 where
  pub now : ℕ
  pub locked : ℕ → Bool
  pub random : ℕ → ℕ
  pub answers : ℕ → Bool

pub data Ordering : Type 0 where
  least_loaded random : Ordering

pub record FallbackConfig : Type 0 where
  pub mode : FallbackMode
  pub op : Operator

pub record Choice : Type 0 where
  pub sim_id : ℕ
  pub device_id : ℕ
  pub operator : Operator
  pub subscription_id : ℕ
  pub on_net : Bool

pub data RouteError : Type 0 where
  no_capacity db_error : RouteError

pub data Result (A : Type 0) : Type 0 where
  ok : A → Result A
  err : RouteError → Result A

-- The device conditions of the `JOIN`: not disabled, and a live socket or a push token.
unfoldable pub is_reachable : Device → Bool
is_reachable d =
    not (is_disabled d.status)
    && ((is_online d.status || not (is_empty d.push_token)) && not d.deleted)

-- `t IS NULL OR t + gap < now`.
abbrev is_past : Option ℕ → ℕ → ℕ → Bool
is_past none gap now = true
is_past (some t) gap now = ltb (t + gap) now

-- `AND s.operator IN (…)`, left out where no operators are given.
abbrev operator_in : List Operator → Operator → Bool
operator_in [] op = true
operator_in (o ∷ os) op = any (λ p. operator_eq op p) (o ∷ os)

-- The `WHERE` clause of the selection.
unfoldable pub eligible : World → List Device → List Operator → ℕ → Sim → Bool
eligible w devices operators seg s =
    is_ready s.status
    && (any (λ d. d.id == s.device_id && is_reachable d) devices
        && (not s.deleted
            && (is_past s.cooldown_until 0 w.now
                && (is_past s.last_used_at s.min_gap_ms w.now
                    && (leb (s.sent_today + seg) s.daily_quota
                        && (operator_in operators s.operator && not (w.locked s.id)))))))

-- `last_used_at ASC NULLS FIRST`.
abbrev used_before : Option ℕ → Option ℕ → Bool
used_before none none = false
used_before none (some u) = true
used_before (some t) none = false
used_before (some t) (some u) = ltb t u

-- The `ORDER BY` clause, as the order in which a row stands before another.
pub before : World → Ordering → Sim → Sim → Bool
before w Ordering.least_loaded a b =
    ltb a.sent_window b.sent_window
    || (a.sent_window == b.sent_window
        && (ltb b.health_score a.health_score
            || (a.health_score == b.health_score && used_before a.last_used_at b.last_used_at)))
before w Ordering.random a b = ltb (w.random a.id) (w.random b.id)

-- `ORDER BY … LIMIT 1`: between rows of one rank the first in the table.
abbrev pub better {ℓ} : {A : Type ℓ} → (A → A → Bool) → A → Option A → Option A
better lt x none = some x
better lt x (some y) = if lt y x then some y else some x

abbrev pub best {ℓ} : {A : Type ℓ} → (A → A → Bool) → (A → Bool) → List A → Option A
best lt p [] = none
best lt p (x ∷ xs) = let rest = best lt p xs in if p x then better lt x rest else rest

pub charge : ℕ → ℕ → Sim → Sim
charge now seg s = record s {
  sent_today = s.sent_today + seg;
  sent_window = s.sent_window + seg;
  last_used_at = some now;
  updated_at = now;
}

abbrev pub choice_of : Sim → Choice
choice_of s = record {
  sim_id = s.id;
  device_id = s.device_id;
  operator = s.operator;
  subscription_id = s.subscription_id;
  on_net = false;
}

abbrev pub charge_sim : World → ℕ → Db → ℕ → Db
charge_sim w seg db i = record db {
  sims = update_where (λ s. s.id == i) (charge w.now seg) db.sims;
}

abbrev taken : World → ℕ → Db → Option Sim → Result Choice × Db
taken w seg db none = (Result.err RouteError.no_capacity, db)
taken w seg db (some s) = (Result.ok (choice_of s), charge_sim w seg db s.id)

-- `statement` counts the statements of one `Route`.
pub reserve : World → ℕ → List Operator → ℕ → Ordering → Db → Result Choice × Db
unfolding eligible is_reachable before
reserve w statement operators seg order db =
    if w.answers statement
    then taken w seg db (best (before w order) (eligible w db.devices operators seg) db.sims)
    else (Result.err RouteError.db_error, db)

abbrev pub segments_of : ℕ → ℕ
segments_of seg = if ltb seg 1 then 1 else seg

abbrev is_any : RoutingPolicy → Bool
is_any RoutingPolicy.any = true
is_any _ = false

abbrev pub is_strict : RoutingPolicy → Bool
is_strict RoutingPolicy.on_net_strict = true
is_strict _ = false

abbrev pub is_default_op : FallbackMode → Bool
is_default_op FallbackMode.default_op = true
is_default_op _ = false

abbrev last_order : FallbackMode → Ordering
last_order FallbackMode.random = Ordering.random
last_order _ = Ordering.least_loaded

-- A choice is returned, a database error too, and after "no capacity" the next statement runs.
abbrev or_else : Result Choice × Db → (Db → Result Choice × Db) → Result Choice × Db
or_else (Result.ok c, db) next = (Result.ok c, db)
or_else (Result.err RouteError.no_capacity, db) next = next db
or_else (Result.err RouteError.db_error, db) next = (Result.err RouteError.db_error, db)

abbrev with_on_net : (Choice → Bool) → Result Choice × Db → Result Choice × Db
with_on_net f (Result.ok c, db) = (Result.ok (record c { on_net = f c }), db)
with_on_net f (Result.err e, db) = (Result.err e, db)

pub tries_on_net : Message → Bool
tries_on_net msg = not (is_any msg.routing_policy) && not (is_unknown msg.target_operator)

abbrev nothing : Db → Result Choice × Db
nothing db = (Result.err RouteError.no_capacity, db)

abbrev matches : Message → Choice → Bool
matches msg c = operator_eq c.operator msg.target_operator

-- The three attempts of `Route`, in their order.
pub try_on_net : World → Message → Db → Result Choice × Db
unfolding tries_on_net
try_on_net w msg db =
    if tries_on_net msg
    then with_on_net (λ c. true)
        (reserve w 0 (msg.target_operator ∷ []) (segments_of msg.segments) Ordering.least_loaded db)
    else nothing db

pub try_default : World → FallbackConfig → Message → Db → Result Choice × Db
try_default w fb msg db =
    if not (is_strict msg.routing_policy) && (is_default_op fb.mode && not (is_unknown fb.op))
    then with_on_net (matches msg)
        (reserve w 1 (fb.op ∷ []) (segments_of msg.segments) Ordering.least_loaded db)
    else nothing db

pub try_last : World → FallbackConfig → Message → Db → Result Choice × Db
try_last w fb msg db =
    if not (is_strict msg.routing_policy)
    then with_on_net (matches msg)
        (reserve w 2 [] (segments_of msg.segments) (last_order fb.mode) db)
    else nothing db

unfoldable pub route : World → FallbackConfig → Message → Db → Result Choice × Db
unfolding try_on_net try_default try_last reserve
route w fb msg db =
    or_else (try_on_net w msg db) λ db. or_else (try_default w fb msg db) (try_last w fb msg)

refund : ℕ → ℕ → Sim → Sim
refund now seg s = record s {
  sent_today = max_of (s.sent_today - seg) 0;
  sent_window = max_of (s.sent_window - seg) 0;
  updated_at = now;
}

unfoldable pub release : ℕ → ℕ → ℕ → Db → Db
unfolding refund
release now sim_id segments db = record db {
  sims = update_where (λ s. s.id == sim_id) (refund now (segments_of segments)) db.sims;
}
