-- ===== src/Fleet.antt =====
-- server/internal/fleet/fleet.go: the reconciliation of a device's SIM report, the state that is
-- pushed back to the phone, and the quota that a device may set. The ids of new rows and the
-- outcome of the statements for each entry of the report are the parameter `Ids`.
pub mod Reconcile
mod Tests
use wsms_gateway.Base.{
  ℕ, suc, ◌+◌, Bool, true, false, not, ◌&&◌, Option, none, some, List, [], ◌∷◌, ◌++◌, ltb, ◌==◌,
  any, if◌then◌else◌, first, select, update_where,
}
use wsms_gateway.Base.Int.{ℤ, pos, negsuc}
use wsms_gateway.Models.Enums.{Operator, SimStatus, is_absent}
use wsms_gateway.Models.Records.{Text, is_empty, Sim, Db}
use wsms_gateway.Ws.Protocol.{SimInfo, SimState}
use wsms_gateway.Router.Msisdn.{normalize_msisdn}
use wsms_gateway.Router.Carrier.{carrier_to_operator}

-- `new_id n` is what `NewID` returns for entry `n` of a report; `answers n` whether the database
-- answers the statements for it.
pub record Ids : Type 0 where
  pub new_id : ℕ → ℕ
  pub answers : ℕ → Bool

-- `device_id = ? AND subscription_id = ?`, which for a soft-deleted row does not hold.
abbrev pub is_slot : ℕ → ℕ → Sim → Bool
is_slot device subscription s =
    s.device_id == device && (s.subscription_id == subscription && not s.deleted)

abbrev pub is_live : ℕ → Sim → Bool
is_live device s = s.device_id == device && not s.deleted

abbrev or_empty : Option Text → Text
or_empty none = []
or_empty (some n) = n

pub new_sim : ℕ → ℕ → ℕ → SimInfo → Sim
new_sim now id device si = record {
  id = id;
  device_id = device;
  slot = si.slot;
  subscription_id = si.subscription_id;
  operator = carrier_to_operator si.carrier_name;
  operator_locked = false;
  msisdn = or_empty (normalize_msisdn si.number);
  status = SimStatus.ready;
  daily_quota = 200;
  sent_today = 0;
  sent_window = 0;
  min_gap_ms = 8000;
  health_score = 100;
  cooldown_until = none;
  last_used_at = none;
  created_at = now;
  updated_at = now;
  deleted = false;
}

-- The `updates` of a SIM that is known.
pub refreshed : ℕ → SimInfo → Sim → Sim
refreshed now si s =
    let number = or_empty (normalize_msisdn si.number) in
    record s {
      slot = si.slot;
      status = SimStatus.ready;
      operator = if s.operator_locked then s.operator else carrier_to_operator si.carrier_name;
      msisdn = if is_empty number then s.msisdn else number;
      updated_at = now;
    }

-- One entry of the report; none is an error of the database.
pub upsert_one : ℕ → Ids → ℕ → ℕ → SimInfo → List Sim → Option (List Sim)
unfolding new_sim refreshed
upsert_one now ids n device si sims =
    if ids.answers n
    then (elim (first (is_slot device si.subscription_id) sims) [
      | none ↦ some (sims ++ new_sim now (ids.new_id n) device si ∷ [])
      | some known ↦
          some (update_where (λ s. s.id == known.id && not s.deleted) (refreshed now si) sims)
    ])
    else none

-- The loop, with what it has done where it stops.
pub upsert_all : ℕ → Ids → ℕ → ℕ → List SimInfo → List Sim → List Sim × Bool
unfolding upsert_one
upsert_all now ids n device [] sims = (sims, true)
upsert_all now ids n device (si ∷ report) sims = elim (upsert_one now ids n device si sims) [
  | none ↦ (sims, false)
  | some sims' ↦ upsert_all now ids (suc n) device report sims'
]

abbrev pub is_reported : List SimInfo → Sim → Bool
is_reported report s = any (λ (si : SimInfo). si.subscription_id == s.subscription_id) report

pub mark_absent : ℕ → ℕ → List SimInfo → List Sim → List Sim
mark_absent now device report =
    update_where (λ s. is_live device s && (not (is_reported report s) && not (is_absent s.status)))
      (λ s. record s { status = SimStatus.absent; updated_at = now })

-- `UpsertSims`; false is the error.
unfoldable pub upsert_sims : ℕ → Ids → ℕ → List SimInfo → Db → Db × Bool
unfolding upsert_all mark_absent
upsert_sims now ids device report db =
    let (sims, done) = upsert_all now ids 0 device report db.sims in
    if done
    then (record db { sims = mark_absent now device report sims }, true)
    else (record db { sims = sims }, false)

abbrev pub max_daily_quota : ℕ
max_daily_quota = 100000

abbrev state_of : Sim → SimState
state_of s = record {
  sim_id = s.id;
  subscription_id = s.subscription_id;
  slot = s.slot;
  operator = s.operator;
  msisdn = s.msisdn;
  status = s.status;
  daily_quota = s.daily_quota;
  sent_today = s.sent_today;
  health_score = s.health_score;
}

-- `Order("slot")`: insertion into a list that is sorted by slot.
abbrev insert_by_slot : SimState → List SimState → List SimState
insert_by_slot x [] = x ∷ []
insert_by_slot x (y ∷ ys) =
    let rest = insert_by_slot x ys in if ltb y.slot x.slot then y ∷ rest else x ∷ y ∷ ys

abbrev states_of : List Sim → List SimState
states_of [] = []
states_of (s ∷ sims) = insert_by_slot (state_of s) (states_of sims)

unfoldable pub device_sim_states : Db → ℕ → List SimState
device_sim_states db device = states_of (select (is_live device) db.sims)

unfoldable pub clamp_quota : ℤ → ℕ
clamp_quota (pos q) = if ltb max_daily_quota q then max_daily_quota else q
clamp_quota (negsuc q) = 0

-- `SetSimQuota`: the SIM's id and the clamped value, or none where there is no such SIM.
unfoldable pub set_sim_quota : ℕ → ℕ → ℕ → ℤ → Db → Db × Option (ℕ × ℕ)
unfolding clamp_quota
set_sim_quota now device subscription quota db =
    elim (first (is_slot device subscription) db.sims) [
      | none ↦ (db, none)
      | some s ↦ (
        record db {
          sims =
              update_where (λ t. t.id == s.id && not t.deleted)
                (λ t. record t { daily_quota = clamp_quota quota; updated_at = now }) db.sims;
        },
        some (s.id, clamp_quota quota),
      )
    ]
