-- ===== src/Admin/Keys/Messages.antt =====
-- API keys and secrets (server/internal/admin/handlers.go) leave messages and ledger.
use wsms_gateway.Base.{ℕ, Bool, List, arith}
use wsms_gateway.Models.Records.{Text}
use wsms_gateway.Dispatch.Invariant.{SameMessages}
use wsms_gateway.Admin.Console.{Console, ConsoleEnv, User}
use wsms_gateway.Admin.Keys.{
  create_key, store_key, key_for, revoke_key, seal_webhook, rotate_webhook_secret, seal_signing,
  enable_key_signing,
}

module _ (e : ConsoleEnv) (u : User) (c : Console) where
  pub create_key-Same :
      (id : ℕ) (boxes : List (Bool × Text)) → SameMessages c.db (create_key e u id boxes c).1.db
  unfolding create_key key_for store_key
  create_key-Same id boxes = ground arith

  pub revoke_key-Same : (id : ℕ) → SameMessages c.db (revoke_key e u id c).1.db
  unfolding revoke_key
  revoke_key-Same id = ground arith

  pub rotate_webhook_secret-Same :
      (id : ℕ) → SameMessages c.db (rotate_webhook_secret e u id c).1.db
  unfolding rotate_webhook_secret seal_webhook
  rotate_webhook_secret-Same id = ground arith

  pub enable_key_signing-Same : (id : ℕ) → SameMessages c.db (enable_key_signing e u id c).1.db
  unfolding enable_key_signing seal_signing
  enable_key_signing-Same id = ground arith
