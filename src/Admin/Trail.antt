-- ===== src/Admin/Trail.antt =====
-- The audit trail of the console (audit of server/internal/admin/admin.go) over its handlers.
use wsms_gateway.Base.{
  length, ◌≤◌, ℕ, ◌≡◌, refl, ◌⊎◌, inl, inr, Bool, true, List, [], ◌∷◌, ◌++◌, arith, All, sym, ap,
  ◌∙◌,
}
use mathlib.Core.List.{append-nil, append_assoc}
use wsms_gateway.Models.Records.{AdminAudit, AuditAction, Db}
use wsms_gateway.Admin.Console.{Console, ConsoleEnv, User, actor_of, audit_row, audit}

-- What a request by `u` adds to the trail: rows that name the user, at the time of the request. Where
-- it adds none nothing changes, but for a client that was
-- made, which `made` allows.
pub record Trace (e : ConsoleEnv) (u : User) (made : Bool) (c d : Console) : Type 0 where
  pub rows : List AdminAudit
  pub appended : d.db.audits ≡ c.db.audits ++ rows
  pub written : All (λ r. (r.actor ≡ actor_of u) × (r.created_at ≡ e.now)) rows
  pub silent :
      (1 ≤ length rows)
      ⊎ ((d ≡ c) ⊎ ((made ≡ true) × (d ≡ record c { db = record c.db { clients = d.db.clients } })))

module _ (e : ConsoleEnv) (u : User) (made : Bool) (c : Console) where
  pub untraced : Trace e u made c c
  untraced = record {
    rows = [];
    appended = sym (append-nil c.db.audits);
    written = tt;
    silent = inr (inl refl);
  }

  -- One row, over tables whose trail is that of `c`.
  pub traced_once :
      (act : AuditAction) (id : ℕ) (db : Db) (d : Console)
      → db.audits ≡ c.db.audits
      → d.db ≡ audit e.now u act id db
      → Trace e u made c d
  traced_once act id db d h k = record {
    rows = audit_row e.now u act id ∷ [];
    appended = cc;
    written = ((refl, refl), tt);
    silent = inl (omega arith);
  }

  -- Two rows.
  pub traced_twice :
      (act act' : AuditAction) (id id' : ℕ) (db : Db) (d : Console)
      → db.audits ≡ c.db.audits
      → d.db ≡ audit e.now u act' id' (audit e.now u act id db)
      → Trace e u made c d
  traced_twice act act' id id' db d h k = record {
    rows = audit_row e.now u act id ∷ audit_row e.now u act' id' ∷ [];
    appended =
        ap (λ (x : Db). x.audits) k
        ∙ (append_assoc db.audits (audit_row e.now u act id ∷ []) (audit_row e.now u act' id' ∷ [])
            ∙ ap (λ l. l ++ audit_row e.now u act id ∷ audit_row e.now u act' id' ∷ []) h);
    written = ((refl, refl), ((refl, refl), tt));
    silent = inl (omega arith);
  }

  -- No row, and at most a new client.
  pub traced_client :
      (db : Db)
      → made ≡ true
      → db ≡ record c.db { clients = db.clients }
      → Trace e u made c (record c { db = db })
  traced_client db y h = record {
    rows = [];
    appended = ap (λ (d : Db). d.audits) h ∙ sym (append-nil c.db.audits);
    written = tt;
    silent = inr (inr (y, ap (λ (d : Db). record c { db = d }) h));
  }
