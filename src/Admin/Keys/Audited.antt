-- ===== src/Admin/Keys/Audited.antt =====
-- The audit trail of API keys and secrets (server/internal/admin/handlers.go).
use wsms_gateway.Base.{
  ℕ, refl, inl, inr, Bool, List, [], ◌∷◌, Option, none, some, Bool-cases, Option-cases, first,
}
use wsms_gateway.Models.Records.{Text, is_empty, Client, ApiKey}
use wsms_gateway.Admin.Console.{Console, ConsoleEnv, User}
use wsms_gateway.Admin.Trail.{Trace, untraced, traced_once}
use wsms_gateway.Base.{not, ◌&&◌, ◌==◌}
use wsms_gateway.Admin.Access.{find_client}
use wsms_gateway.Admin.Keys.{
  create_key, ticked, allocate, store_key, key_for, revoke_key, seal_webhook, rotate_webhook_secret,
  seal_signing, enable_key_signing,
}

module _ (e : ConsoleEnv) (u : User) (made : Bool) (c : Console) where
  store_key-Trace :
      (cl : Client) (id : ℕ) (scopes prefix : Text) (hash : Option Text)
      → Trace e u made c (store_key e u cl id scopes prefix hash c).1
  unfolding store_key
  store_key-Trace cl id scopes prefix none = untraced e u made c
  store_key-Trace cl id scopes prefix (some hash) = elim (Bool-cases (e.stores 0)) [
    | inl q ↦ rw q (traced_once e u made c _ _ _ _ refl refl)
    | inr q ↦ rw q (untraced e u made c)
  ]

  key_for-Trace :
      (cl : Client) (id : ℕ) (scopes : Text) (prefix : Option Text)
      → Trace e u made c (key_for e u cl id scopes prefix c).1
  unfolding key_for
  key_for-Trace cl id scopes none = untraced e u made c
  key_for-Trace cl id scopes (some []) = untraced e u made c
  key_for-Trace cl id scopes (some (p ∷ prefix)) =
      store_key-Trace cl id scopes (p ∷ prefix) (e.hash (e.token 6))

  pub create_key-Trace :
      (id : ℕ) (boxes : List (Bool × Text)) → Trace e u made c (create_key e u id boxes c).1
  unfolding create_key
  create_key-Trace id boxes = elim (Option-cases (find_client id c.db)) [
    | inl q ↦ rw (q, create_key) (untraced e u made c)
    | inr (cl, q) ↦ elim (Bool-cases (is_empty (ticked boxes))) [
      | inl n ↦ rw (q, create_key, n) (untraced e u made c)
      | inr n ↦
          rw (q, create_key, n) (key_for-Trace cl id (ticked boxes) (allocate e.token c.db 6 0))
    ]
  ]

  pub revoke_key-Trace : (id : ℕ) → Trace e u made c (revoke_key e u id c).1
  unfolding revoke_key
  revoke_key-Trace id = traced_once e u made c _ id _ _ refl refl

  seal_webhook-Trace :
      (cl : Client) (enc : Option Text) → Trace e u made c (seal_webhook e u cl enc c).1
  unfolding seal_webhook
  seal_webhook-Trace cl none = untraced e u made c
  seal_webhook-Trace cl (some enc) = elim (Bool-cases (e.stores 0)) [
    | inl q ↦ rw q (traced_once e u made c _ _ _ _ refl refl)
    | inr q ↦ rw q (untraced e u made c)
  ]

  pub rotate_webhook_secret-Trace : (id : ℕ) → Trace e u made c (rotate_webhook_secret e u id c).1
  unfolding rotate_webhook_secret
  rotate_webhook_secret-Trace id = elim (Option-cases (find_client id c.db)) [
    | inl q ↦ rw (q, rotate_webhook_secret) (untraced e u made c)
    | inr (cl, q) ↦ rw (q, rotate_webhook_secret) (seal_webhook-Trace cl (e.seal (e.token 0)))
  ]

  seal_signing-Trace :
      (key : ApiKey) (enc : Option Text) → Trace e u made c (seal_signing e u key enc c).1
  unfolding seal_signing
  seal_signing-Trace key none = untraced e u made c
  seal_signing-Trace key (some enc) = elim (Bool-cases (e.stores 0)) [
    | inl q ↦ rw q (traced_once e u made c _ _ _ _ refl refl)
    | inr q ↦ rw q (untraced e u made c)
  ]

  pub enable_key_signing-Trace : (id : ℕ) → Trace e u made c (enable_key_signing e u id c).1
  unfolding enable_key_signing
  enable_key_signing-Trace id =
      elim (Option-cases (first (λ (k : ApiKey). k.id == id && not k.deleted) c.db.keys)) [
        | inl q ↦ rw (q, enable_key_signing) (untraced e u made c)
        | inr (key, q) ↦ rw (q, enable_key_signing) (seal_signing-Trace key (e.seal (e.token 0)))
      ]
