-- ===== src/Admin/Access/Messages.antt =====
-- Enrollment tokens and clients (server/internal/admin/handlers.go) leave messages and ledger.
use wsms_gateway.Base.{ℕ, arith}
use wsms_gateway.Models.Records.{Text}
use wsms_gateway.Dispatch.Invariant.{SameMessages}
use wsms_gateway.Admin.Console.{Console, ConsoleEnv, User}
use wsms_gateway.Admin.Fleet.{unlink_device}
use wsms_gateway.Admin.Access.{
  issue_enrollment, delete_enrollment, drop_token, create_client, toggle_client, delete_client,
}

module _ (e : ConsoleEnv) (u : User) (c : Console) where
  pub issue_enrollment-Same : (text : Text) → SameMessages c.db (issue_enrollment e u text c).1.db
  unfolding issue_enrollment
  issue_enrollment-Same text = ground arith

  pub delete_enrollment-Same : (id : ℕ) → SameMessages c.db (delete_enrollment e u id c).1.db
  unfolding delete_enrollment drop_token unlink_device
  delete_enrollment-Same id = ground arith

  pub create_client-Same : (text : Text) → SameMessages c.db (create_client e u text c).1.db
  unfolding create_client
  create_client-Same text = ground arith

  pub toggle_client-Same : (id : ℕ) → SameMessages c.db (toggle_client e u id c).1.db
  unfolding toggle_client
  toggle_client-Same id = ground arith

  pub delete_client-Same : (id : ℕ) → SameMessages c.db (delete_client e u id c).1.db
  unfolding delete_client
  delete_client-Same id = ground arith
