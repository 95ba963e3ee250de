-- ===== src/Admin/Access/Audited.antt =====
-- The audit trail of enrollment tokens and clients (server/internal/admin/handlers.go).
use wsms_gateway.Base.{ℕ, ◌≡◌, refl, inl, inr, Bool, Option, none, some, Bool-cases, Option-cases}
use wsms_gateway.Models.Records.{Text, is_empty, EnrollmentToken}
use wsms_gateway.Admin.Console.{Console, ConsoleEnv, User}
use wsms_gateway.Admin.Trail.{Trace, untraced, traced_once, traced_twice}
use wsms_gateway.Text.{trim_space}
use wsms_gateway.Admin.Fleet.{unlink_device}
use wsms_gateway.Admin.Access.{
  issue_enrollment, delete_enrollment, drop_token, find_token, find_client, create_client,
  toggle_client, delete_client,
}

module _ (e : ConsoleEnv) (u : User) (made : Bool) (c : Console) where
  pub issue_enrollment-Trace : (label : Text) → Trace e u made c (issue_enrollment e u label c).1
  unfolding issue_enrollment
  issue_enrollment-Trace label = elim (Bool-cases (e.stores 0)) [
    | inl q ↦ rw q (traced_once e u made c _ _ _ _ refl refl)
    | inr q ↦ rw q (untraced e u made c)
  ]

  drop_token-Trace :
      (id : ℕ) (et : EnrollmentToken) (device : Option ℕ)
      → find_token id c.db ≡ some et
      → et.device_id ≡ device
      → Trace e u made c (delete_enrollment e u id c).1
  unfolding delete_enrollment unlink_device
  drop_token-Trace id et none f d =
      rw (f, delete_enrollment, d, drop_token) (traced_once e u made c _ et.id _ _ refl refl)
  drop_token-Trace id et (some device) f d =
      rw (f, delete_enrollment, d, drop_token)
        (traced_twice e u made c _ _ device et.id _ _ refl refl)

  pub delete_enrollment-Trace : (id : ℕ) → Trace e u made c (delete_enrollment e u id c).1
  unfolding delete_enrollment
  delete_enrollment-Trace id = elim (Option-cases (find_token id c.db)) [
    | inl q ↦ rw (q, delete_enrollment) (untraced e u made c)
    | inr (et, q) ↦ drop_token-Trace id et et.device_id q refl
  ]

  pub create_client-Trace : (name : Text) → Trace e u made c (create_client e u name c).1
  unfolding create_client
  create_client-Trace name = elim (Bool-cases (is_empty (trim_space name))) [
    | inl q ↦ rw q (untraced e u made c)
    | inr q ↦ elim (Bool-cases (e.stores 0)) [
      | inl s ↦ rw (q, s) (traced_once e u made c _ _ _ _ refl refl)
      | inr s ↦ rw (q, s) (untraced e u made c)
    ]
  ]

  pub toggle_client-Trace : (id : ℕ) → Trace e u made c (toggle_client e u id c).1
  unfolding toggle_client
  toggle_client-Trace id = elim (Option-cases (find_client id c.db)) [
    | inl q ↦ rw (q, toggle_client) (untraced e u made c)
    | inr (cl, q) ↦ rw (q, toggle_client) (traced_once e u made c _ cl.id _ _ refl refl)
  ]

  pub delete_client-Trace : (id : ℕ) → Trace e u made c (delete_client e u id c).1
  unfolding delete_client
  delete_client-Trace id = traced_once e u made c _ id _ _ refl refl
