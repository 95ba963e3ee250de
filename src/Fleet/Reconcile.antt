-- ===== src/Fleet/Reconcile.antt =====
-- What a SIM report (server/internal/fleet/fleet.go) does to the SIMs that are known.
use mathlib.Core.Bool.{false≢true}
use wsms_gateway.Base.{
  ℕ, suc, ◌≡◌, refl, sym, ◌∙◌, subst, Bool, true, false, not, ◌&&◌, Option, none, some, List, [],
  ◌∷◌, ◌++◌, arith, ◌==◌, first, by_key, by_key-update_where, first-append_some, In,
  In-update_where, update_where, Option-cases, Bool-cases, inl, inr,
}
use wsms_gateway.Models.Enums.{SimStatus, is_absent}
use wsms_gateway.Models.Records.{Sim, Db}
use wsms_gateway.Ws.Protocol.{SimInfo}
use wsms_gateway.Router.Engine.Quota.{sim_key}
use wsms_gateway.Fleet.{
  Ids, is_slot, is_live, new_sim, refreshed, upsert_one, upsert_all, is_reported, mark_absent,
  upsert_sims,
}

-- What a report leaves of a SIM: counters, limits, and an operator that the console has locked.
pub record IsKept (s after : Sim) : Type 0 where
  pub id : after.id ≡ s.id
  pub device : after.device_id ≡ s.device_id
  pub today : after.sent_today ≡ s.sent_today
  pub window : after.sent_window ≡ s.sent_window
  pub quota : after.daily_quota ≡ s.daily_quota
  pub gap : after.min_gap_ms ≡ s.min_gap_ms
  pub cooldown : after.cooldown_until ≡ s.cooldown_until
  pub locked : after.operator_locked ≡ s.operator_locked
  pub operator : s.operator_locked ≡ true → after.operator ≡ s.operator

IsKept-refl : (s : Sim) → IsKept s s
IsKept-refl s = ground arith

IsKept-trans : (a b c : Sim) → IsKept a b → IsKept b c → IsKept a c
IsKept-trans a b c p q = ground arith

refreshed-IsKept : (now : ℕ) (si : SimInfo) (s : Sim) → IsKept s (refreshed now si s)
unfolding refreshed
refreshed-IsKept now si s = ground arith

abbrev Keeps : List Sim → List Sim → Type 0
Keeps sims after =
    (k : ℕ) (s : Sim)
    → by_key sim_key k sims ≡ some s
    → (s' : Sim) × (by_key sim_key k after ≡ some s') × IsKept s s'

update-Keeps :
    (p : Sim → Bool) (f : Sim → Sim) (sims : List Sim)
    → ((s : Sim) → IsKept s (f s))
    → Keeps sims (update_where p f sims)
update-Keeps p f sims kept k s found =
    let row = by_key-update_where sim_key p f k sims (λ x. (kept x).id) in
    elim (Bool-cases (p s)) [
      | inl t ↦ (f s, row ∙ rw (found, t) refl, kept s)
      | inr n ↦ (s, row ∙ rw (found, n) refl, IsKept-refl s)
    ]

upsert_one-Keeps :
    (now : ℕ) (ids : Ids) (n device : ℕ) (si : SimInfo) (sims after : List Sim)
    → upsert_one now ids n device si sims ≡ some after
    → Keeps sims after
unfolding upsert_one
upsert_one-Keeps now ids n device si sims after h = elim (Bool-cases (ids.answers n)) [
  | inl t ↦ elim (Option-cases (first (is_slot device si.subscription_id) sims)) [
    | inl new ↦
        let e : sims ++ new_sim now (ids.new_id n) device si ∷ [] ≡ after =
          some-eq (rw (t, new) at h) in
        subst (Keeps sims) e
          (λ k s found. (s, first-append_some (λ x. sim_key x == k) sims _ found, IsKept-refl s))
    | inr (known, there) ↦
        let e : update_where (λ s. s.id == known.id && not s.deleted) (refreshed now si) sims
            ≡ after =
          some-eq (rw (t, there) at h) in
        subst (Keeps sims) e (update-Keeps _ (refreshed now si) sims (refreshed-IsKept now si))
  ]
  | inr f ↦ absurd (none-ne-some (rw f at h))
]
  where
    none-ne-some : ◌≡◌ {A = Option (List Sim)} none (some after) → ⊥
    none-ne-some q = cc

    some-eq : {x : List Sim} → some x ≡ some after → x ≡ after
    some-eq q = cc

upsert_all-Keeps :
    (now : ℕ) (ids : Ids) (n device : ℕ) (report : List SimInfo) (sims : List Sim)
    → Keeps sims (upsert_all now ids n device report sims).0
unfolding upsert_all
upsert_all-Keeps now ids n device [] sims k s found = (s, found, IsKept-refl s)
upsert_all-Keeps now ids n device (si ∷ report) sims k s found =
    elim (Option-cases (upsert_one now ids n device si sims)) [
      | inl failed ↦ rw (failed, upsert_all) (s, found, IsKept-refl s)
      | inr (sims', done) ↦
          rw (done, upsert_all)
            (let (a, i, p) = upsert_one-Keeps now ids n device si sims sims' done k s found in
              let (b, j, q) = upsert_all-Keeps now ids (suc n) device report sims' k a i in
              (b, j, IsKept-trans s a b p q))
    ]

-- A report, also one that stops at an error of the database, keeps every SIM that is known, with
-- its counters, limits and cool-down, and the operator of one that is locked.
pub upsert_sims-IsKept :
    (now : ℕ) (ids : Ids) (device : ℕ) (report : List SimInfo) (db : Db) (k : ℕ) (s : Sim)
    → by_key sim_key k db.sims ≡ some s
    → (s' : Sim) × (by_key sim_key k (upsert_sims now ids device report db).0.sims ≡ some s')
      × IsKept s s'
unfolding upsert_sims mark_absent
upsert_sims-IsKept now ids device report db k s found =
    let (a, i, p) = upsert_all-Keeps now ids 0 device report db.sims k s found in
    elim (Bool-cases (upsert_all now ids 0 device report db.sims).1) [
      | inl done ↦
          let (b, j, q) =
            update-Keeps _ (λ x. record x { status = SimStatus.absent; updated_at = now })
              (upsert_all now ids 0 device report db.sims).0 (λ x. absent_kept x) k a i in
          rw done (b, j, IsKept-trans s a b p q)
      | inr failed ↦ rw failed (a, i, p)
    ]
  where
    absent_kept : (x : Sim) → IsKept x (record x { status = SimStatus.absent; updated_at = now })
    absent_kept x = ground arith

-- After a report that was stored, each SIM of the device that it does not name is ABSENT.
pub upsert_sims_absent :
    (now : ℕ) (ids : Ids) (device : ℕ) (report : List SimInfo) (db : Db) (s : Sim)
    → (upsert_sims now ids device report db).1 ≡ true
    → In s (upsert_sims now ids device report db).0.sims
    → is_live device s ≡ true
    → is_reported report s ≡ false
    → is_absent s.status ≡ true
unfolding upsert_sims mark_absent
upsert_sims_absent now ids device report db s ok i live out =
    elim (Bool-cases (upsert_all now ids 0 device report db.sims).1) [
      | inl done ↦
          let (a, j, e) =
            In-update_where
              (λ x. is_live device x && (not (is_reported report x) && not (is_absent x.status)))
              (λ x. record x { status = SimStatus.absent; updated_at = now }) s
              (upsert_all now ids 0 device report db.sims).0 (rw done at i) in
          subst Marked (sym e)
            (elim (Bool-cases
              (is_live device a && (not (is_reported report a) && not (is_absent a.status)))) [
                | inl t ↦ rw t (λ l o. refl)
                | inr f ↦ rw f (λ l o. ground (arith, l, o))
              ])
            live out
      | inr failed ↦ absurd (false≢true (rw failed at ok))
    ]
  where
    Marked : Sim → Type 0
    Marked x = is_live device x ≡ true → is_reported report x ≡ false → is_absent x.status ≡ true
