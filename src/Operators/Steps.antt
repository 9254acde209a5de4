-- ===== src/Operators/Steps.antt =====
-- What operators do to the accounts of operators, in any order: each request is one transaction, behind
-- the gate of its route.
use rustdesk_managed_directo.Common.{ℕ, String, List, [], ◌∷◌}
use rustdesk_managed_directo.Http.{commit, ◌>>◌}
use rustdesk_managed_directo.Store.{Scope, Db}
use rustdesk_managed_directo.Store.Env.{Env}
use rustdesk_managed_directo.Lifecycle.{Context}
use rustdesk_managed_directo.Operators.Gates.{Operator, enforce_owner}
use rustdesk_managed_directo.Operators.SignIn.{LoginRequest, perform_login}
use rustdesk_managed_directo.Operators.Refresh.{logout}
use rustdesk_managed_directo.Operators.Accounts.{
  disable_operator_account, enable_operator_account, unlock_operator_account,
  revoke_operator_sessions,
}
use rustdesk_managed_directo.Operators.Deletion.{delete_operator_account}
use rustdesk_managed_directo.Operators.Invitations.{
  InvitationRequest, AcceptRequest, create_operator_invitation, revoke_operator_invitation,
  setup_operator_invitation, accept_operator_invitation,
}
use rustdesk_managed_directo.Operators.Changes.{ChangeRequest, create_operator_role_change_request}
use rustdesk_managed_directo.Operators.Completion.{
  complete_operator_role_change_request, cancel_operator_role_change_request,
}
use rustdesk_managed_directo.Operators.Resets.{
  ResetRequest, ResetAcceptRequest, create_reset, create_self_reset, operator_access_reset_accept,
}

pub data Task : Type 0 where
  sign_in : Scope → LoginRequest → Task
  sign_out : Operator → Task
  disable : Operator → ℕ → String → Task
  enable : Operator → ℕ → String → Task
  unlock : Operator → ℕ → String → Task
  end_sessions : Operator → ℕ → String → Task
  delete : Operator → ℕ → String → Task
  invite : Operator → InvitationRequest → Task
  revoke_invitation : Operator → ℕ → String → Task
  set_up : String → Task
  accept_invitation : String → AcceptRequest → Task
  request_role : Operator → ℕ → ChangeRequest → Task
  complete_role : Operator → ℕ → String → Task
  cancel_role : Operator → ℕ → String → Task
  reset_other : String × String → Operator → ℕ → ResetRequest → Task
  reset_self : Operator → ResetRequest → Task
  accept_reset : String → ResetAcceptRequest → Task

-- The tables after a request, accepted, refused or rolled back.
unfoldable pub perform : Env → Context → Task → Db → Db
perform env ctx (sign_in scope r) db = (commit (perform_login env ctx scope r) db).1
perform env ctx (sign_out o) db = (commit (logout ctx o) db).1
perform env ctx (disable o id reason) db =
    (commit (enforce_owner o >> disable_operator_account env ctx o id reason) db).1
perform env ctx (enable o id reason) db =
    (commit (enforce_owner o >> enable_operator_account env ctx o id reason) db).1
perform env ctx (unlock o id reason) db =
    (commit (enforce_owner o >> unlock_operator_account env ctx o id reason) db).1
perform env ctx (end_sessions o id reason) db =
    (commit (enforce_owner o >> revoke_operator_sessions env ctx o id reason) db).1
perform env ctx (delete o id reason) db =
    (commit (enforce_owner o >> delete_operator_account env ctx o id reason) db).1
perform env ctx (invite o r) db =
    (commit (enforce_owner o >> create_operator_invitation env ctx o r) db).1
perform env ctx (revoke_invitation o id reason) db =
    (commit (enforce_owner o >> revoke_operator_invitation env ctx o id reason) db).1
perform env ctx (set_up token) db = (commit (setup_operator_invitation env ctx.now token) db).1
perform env ctx (accept_invitation salt r) db =
    (commit (accept_operator_invitation env ctx salt r) db).1
perform env ctx (request_role o id r) db =
    (commit (enforce_owner o >> create_operator_role_change_request env ctx o id r) db).1
perform env ctx (complete_role o id reason) db =
    (commit (enforce_owner o >> complete_operator_role_change_request env ctx o id reason) db).1
perform env ctx (cancel_role o id reason) db =
    (commit (enforce_owner o >> cancel_operator_role_change_request env ctx o id reason) db).1
perform env ctx (reset_other unknown o id r) db =
    (commit (enforce_owner o >> create_reset env ctx unknown o id r) db).1
perform env ctx (reset_self o r) db = (commit (create_self_reset env ctx o r) db).1
perform env ctx (accept_reset salt p) db =
    (commit (operator_access_reset_accept env ctx salt p) db).1

unfoldable pub perform_all : Env → List (Context × Task) → Db → Db
perform_all env [] db = db
perform_all env ((ctx, task) ∷ rest) db = perform_all env rest (perform env ctx task db)
