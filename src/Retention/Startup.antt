-- ===== src/Retention/Startup.antt =====
-- The purge at the start of the server (server/internal/maintenance/retention.go).
use wsms_gateway.Base.{ℕ, zero, suc, ◌≤◌, ◌≡◌, ◌↔◌, refl, subst, In}
use wsms_gateway.Base.Int.{ℤ, pos, negsuc}
use wsms_gateway.Models.Records.{Message, Db}
use wsms_gateway.Retention.{purge, run_start}
use wsms_gateway.Retention.Orphans.{purge-Purged}

-- The messages that a start leaves: those that are not older than the days to keep, where their
-- number is positive, and otherwise all.
abbrev pub Retained : ℤ → (ℕ → ℕ) → Db → Db → Type 0
Retained (pos zero) cutoff db after = after.messages ≡ db.messages
Retained (pos (suc n)) cutoff db after =
    (m : Message) → In m after.messages ↔ (In m db.messages × (cutoff (suc n) ≤ m.created_at))
Retained (negsuc n) cutoff db after = after.messages ≡ db.messages

pub run_start-Retained :
    (days : ℤ) (cutoff : ℕ → ℕ) (db mid : Db)
    → mid.messages ≡ db.messages
    → Retained days cutoff db (run_start days cutoff mid)
unfolding run_start
run_start-Retained (pos zero) cutoff db mid e = e
run_start-Retained (pos (suc n)) cutoff db mid e = λ m.
    subst
      (λ ms.
        In m (purge (cutoff (suc n)) mid).messages ↔ (In m ms × (cutoff (suc n) ≤ m.created_at)))
      e ((purge-Purged (cutoff (suc n)) mid).messages m)
run_start-Retained (negsuc n) cutoff db mid e = e

-- The tables that it leaves alone.
pub run_start-Alone :
    (days : ℤ) (cutoff : ℕ → ℕ) (db : Db)
    → let after = run_start days cutoff db in
      (after.devices ≡ db.devices) × (after.sims ≡ db.sims) × (after.settings ≡ db.settings)
unfolding run_start purge
run_start-Alone (pos zero) cutoff db = (refl, refl, refl)
run_start-Alone (pos (suc n)) cutoff db = (refl, refl, refl)
run_start-Alone (negsuc n) cutoff db = (refl, refl, refl)
