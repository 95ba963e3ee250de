-- ===== src/Admin/Fleet.antt =====
-- server/internal/admin/actions.go: the actions on SIMs and devices.
pub mod Audited
pub mod Messages
pub mod Unlink
use wsms_gateway.Base.{
  ℕ, ◌+◌, Bool, true, not, ◌&&◌, Option, none, some, List, ltb, ◌==◌, is_id, update_where,
  delete_where, if◌then◌else◌,
}
use wsms_gateway.Base.Int.{ℤ, pos, negsuc}
use wsms_gateway.Models.Enums.{SimStatus}
use wsms_gateway.Models.Records.{Text, is_empty, AuditAction, Device, Sim, EnrollmentToken, Db}
use wsms_gateway.Text.{trim_space}
use wsms_gateway.Ws.Protocol.{Frame}
use wsms_gateway.Ws.Hub.{send_to, disconnect}
use wsms_gateway.Api.Auth.{parse_int}
use wsms_gateway.Admin.Console.{Console, ConsoleEnv, User, Answer, audit}

abbrev pub on_sim : ℕ → (Sim → Sim) → Db → Db
on_sim id f db = record db { sims = update_where (λ s. s.id == id && not s.deleted) f db.sims }

abbrev pub on_device : ℕ → (Device → Device) → Db → Db
on_device id f db = record db {
  devices = update_where (λ d. d.id == id && not d.deleted) f db.devices;
}

-- The handlers behind `canMutate`, each with the write of its audit row.
unfoldable pub sim_disable : ConsoleEnv → User → ℕ → Console → Answer × Console
sim_disable e u id c = (
  Answer.redirect,
  record c {
    db =
        audit e.now u AuditAction.sim_disable id
          (on_sim id (λ s. record s { status = SimStatus.disabled; updated_at = e.now }) c.db);
  },
)

unfoldable pub sim_enable : ConsoleEnv → User → ℕ → Console → Answer × Console
sim_enable e u id c = (
  Answer.redirect,
  record c {
    db = audit e.now u AuditAction.sim_enable id (
        on_sim id
          (λ s. record s { status = SimStatus.ready; cooldown_until = none; updated_at = e.now })
          c.db);
  },
)

-- For thirty minutes.
unfoldable pub sim_cooldown : ConsoleEnv → User → ℕ → Console → Answer × Console
sim_cooldown e u id c = (
  Answer.redirect,
  record c {
    db = audit e.now u AuditAction.sim_cooldown id (
        on_sim id
          (λ s. record s {
            status = SimStatus.cooldown;
            cooldown_until = some (e.now + 1800000);
            updated_at = e.now;
          })
          c.db);
  },
)

set_quota : ConsoleEnv → User → ℕ → Option ℤ → Console → Answer × Console
set_quota e u id none c = (Answer.redirect, c)
set_quota e u id (some (negsuc q)) c = (Answer.redirect, c)
set_quota e u id (some (pos q)) c =
    let quota = if ltb 100000 q then 100000 else q in
    (
      Answer.redirect,
      record c {
        db =
            audit e.now u (AuditAction.sim_quota quota) id
              (on_sim id (λ s. record s { daily_quota = quota; updated_at = e.now }) c.db);
      },
    )

-- `simQuota`, with the form's text.
unfoldable pub sim_quota : ConsoleEnv → User → ℕ → Text → Console → Answer × Console
unfolding set_quota
sim_quota e u id quota c = set_quota e u id (parse_int (trim_space quota)) c

unfoldable pub device_rescan : ConsoleEnv → User → ℕ → Console → Answer × Console
device_rescan e u id c = (
  Answer.redirect,
  record c {
    db = audit e.now u AuditAction.device_rescan id c.db;
    hub = (send_to e.pick id Frame.config c.hub).0;
  },
)

unfoldable pub device_rename : ConsoleEnv → User → ℕ → Text → Console → Answer × Console
device_rename e u id text c =
    let name = trim_space text in
    if is_empty name then (Answer.redirect, c) else (
      Answer.redirect,
      record c {
        db =
            audit e.now u (AuditAction.device_rename name) id
              (on_device id (λ d. record d { name = name; updated_at = e.now }) c.db);
      },
    )

-- `unlinkDevice`: the socket, then the rows; the deletes of devices and SIMs are soft.
unfoldable pub unlink_device : ℕ → Console → Console
unlink_device id c = record c {
  hub = disconnect id c.hub;
  db = record c.db {
    sims =
        update_where (λ s. s.device_id == id && not s.deleted) (λ s. record s { deleted = true })
          c.db.sims;
    tokens = delete_where (λ (t : EnrollmentToken). is_id t.device_id id) c.db.tokens;
    devices =
        update_where (λ d. d.id == id && not d.deleted) (λ d. record d { deleted = true })
          c.db.devices;
  };
}

unfoldable pub device_delete : ConsoleEnv → User → ℕ → Console → Answer × Console
unfolding unlink_device
device_delete e u id c =
    let gone = unlink_device id c in
    (Answer.redirect, record gone { db = audit e.now u AuditAction.device_delete id gone.db })
