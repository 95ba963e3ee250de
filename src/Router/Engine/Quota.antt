-- ===== src/Router/Engine/Quota.antt =====
-- Daily quotas under `Route` and `Release` (server/internal/router/router.go).
use mathlib.Core.Option
use wsms_gateway.Base.{
  ℕ, ◌+◌, ◌-◌, ◌<◌, ◌≤◌, ◌≡◌, refl, ap, inl, inr, true, Option, some, first_sound, List, [], arith,
  ◌==◌, by_key, IsKeyed, In, update_where, by_key-update_where, In-update_where, In-same_key,
  Option-cases, Bool-cases,
}
use wsms_gateway.Models.Records.{Device, Sim, Message, Db}
use wsms_gateway.Router.Engine.{
  World, FallbackConfig, Choice, RouteError, Result, eligible, segments_of, charge, charge_sim,
  route, refund, release,
}
use wsms_gateway.Router.Engine.Promise.{Routed, Routes}
use wsms_gateway.Router.Engine.Route.{route-Routes}

abbrev pub sim_key : Sim → ℕ
sim_key s = s.id

-- No SIM has sent more segments today than its quota.
abbrev pub WithinQuota : Db → Type 0
WithinQuota db = (s : Sim) → In s db.sims → s.sent_today ≤ s.daily_quota

eligible-fits :
    (w : World) (ds : List Device) (seg : ℕ) (s : Sim)
    → eligible w ds [] seg s ≡ true
    → s.sent_today + seg ≤ s.daily_quota
unfolding eligible
eligible-fits w ds seg s h = ground arith

charge_sim-WithinQuota :
    (w : World) (seg : ℕ) (db : Db) (t : Sim)
    → IsKeyed sim_key db.sims
    → In t db.sims
    → t.sent_today + seg ≤ t.daily_quota
    → WithinQuota db
    → WithinQuota (charge_sim w seg db t.id)
unfolding charge
charge_sim-WithinQuota w seg db t u row fits q s i =
    let (a, j, e) = In-update_where _ (charge w.now seg) s db.sims i in
    elim (Bool-cases (a.id == t.id)) [
      | inl same ↦
          let one = In-same_key sim_key a t db.sims u j row (ground arith) in
          ground (arith, ap (λ (x : Sim). x.sent_today) one, ap (λ (x : Sim). x.daily_quota) one)
      | inr other ↦ ground (arith, q a j)
    ]

Routes-WithinQuota :
    (w : World) (msg : Message) (db : Db) (r : Result Choice × Db)
    → IsKeyed sim_key db.sims
    → Routes w msg db r
    → WithinQuota db
    → WithinQuota r.1
Routes-WithinQuota w msg db (Result.ok c, after) u t q =
    rw t.charged
      (charge_sim-WithinQuota w _ db t.sim u t.row (eligible-fits w db.devices _ t.sim t.fits) q)
Routes-WithinQuota w msg db (Result.err RouteError.no_capacity, after) u t q = rw t.unchanged q
Routes-WithinQuota w msg db (Result.err RouteError.db_error, after) u t q = rw t q

-- `Route` keeps every SIM within its daily quota, whatever it returns.
pub route-WithinQuota :
    (w : World) (fb : FallbackConfig) (msg : Message) (db : Db)
    → IsKeyed sim_key db.sims
    → WithinQuota db
    → WithinQuota (route w fb msg db).1
route-WithinQuota w fb msg db u q = Routes-WithinQuota w msg db _ u (route-Routes w fb msg db) q

-- The counters of a SIM.
abbrev pub counters : ℕ → Db → Option (ℕ × ℕ)
counters k db = Option.map (λ s. (s.sent_today, s.sent_window)) (by_key sim_key k db.sims)

release-charge_sim :
    (w : World) (now segments : ℕ) (db : Db) (i k : ℕ)
    → counters k (release now i segments (charge_sim w (segments_of segments) db i)) ≡ counters k db
unfolding release charge
release-charge_sim w now segments db i k =
    let seg = segments_of segments in
    let back =
      by_key-update_where sim_key (λ s. s.id == i) (refund now seg) k
        (update_where (λ s. s.id == i) (charge w.now seg) db.sims) (λ s. refl) in
    let there =
      by_key-update_where sim_key (λ s. s.id == i) (charge w.now seg) k db.sims (λ s. refl) in
    elim (Option-cases (by_key sim_key k db.sims)) [
      | inl missing ↦ rw (back, there, missing) refl
      | inr (s, found) ↦ rw (back, there, found) (ground arith)
    ]

-- `Release` with the message's segments undoes the reserve of `Route` in the counters of all SIMs.
pub release-route :
    (w : World) (fb : FallbackConfig) (msg : Message) (db after : Db) (c : Choice) (now k : ℕ)
    → route w fb msg db ≡ (Result.ok c, after)
    → counters k (release now c.sim_id msg.segments after) ≡ counters k db
release-route w fb msg db after c now k e =
    let t : Routed w msg db c after = rw e at (route-Routes w fb msg db) in
    rw (t.charged, ap (λ (d : Choice). d.sim_id) t.chosen)
      (release-charge_sim w now msg.segments db t.sim.id k)

-- `Release`, in the counters of its SIM.
pub counters-release :
    (now sim segments today window : ℕ) (db : Db)
    → 0 < segments
    → counters sim db ≡ some (today, window)
    → counters sim (release now sim segments db) ≡ some (today - segments, window - segments)
unfolding release
counters-release now sim segments today window db some_segment h =
    let row =
      by_key-update_where sim_key (λ (s : Sim). s.id == sim) (refund now (segments_of segments)) sim
        db.sims (λ s. refl) in
    elim (Option-cases (by_key sim_key sim db.sims)) [
      | inl missing ↦ absurd (cc (rw missing at h))
      | inr (s, found) ↦
          let self = first_sound (λ (x : Sim). x.id == sim) db.sims found in
          rw (row, found) (ground arith)
    ]
