-- ===== src/Operators/Deletion.antt =====
-- main.py `delete_operator_account`: the row stays, marked deleted, and what is pending for it ends.
use rustdesk_managed_directo.Common.{
  ℕ, String, Bool, false, not, ◌&&◌, ◌||◌, Option, none, some, List, ◌==◌, str_eq, if◌then◌else◌,
  is_null, exists_where, update_where,
}
use rustdesk_managed_directo.Http.{
  http, internal_error, Tx, Reply, accepted, raise_if, gets, modify, pure, ◌>>=◌, ◌>>◌,
}
use rustdesk_managed_directo.Store.{
  Account, RoleChange, ChangeStatus, Invitation, Reset, Db, is_owner, is_pending_change,
  is_pending_invitation,
}
use rustdesk_managed_directo.Store.Env.{Env}
use rustdesk_managed_directo.Lifecycle.{Context}
use rustdesk_managed_directo.Operators.Gates.{Operator}
use rustdesk_managed_directo.Operators.SignIn.{update_account}
use rustdesk_managed_directo.Operators.Accounts.{
  is_protected_brad_account, fetch_account, is_other_owner, revoke_account_sessions, audit_account,
  refuse_protected,
}
use rustdesk_managed_directo.Operators.Invitations.{revoked_invitation}

-- WHERE account_id = … AND used_at IS NULL AND revoked_at IS NULL
unfoldable pub revoke_resets : ℕ → ℕ → List Reset → List Reset
revoke_resets now account resets =
    update_where (λ r. r.account_id == account && is_null r.used_at && is_null r.revoked_at)
      (λ r. record r { revoked_at = some now }) resets

unfoldable pub cancel_changes : ℕ → List RoleChange → List RoleChange
cancel_changes account changes =
    update_where (λ c. c.target_account_id == account && is_pending_change c.status)
      (λ c. record c { status = ChangeStatus.cancelled }) changes

abbrev targets : ℕ → Option ℕ → Bool
targets account none = false
targets account (some id) = id == account

unfoldable pub revoke_invitations : ℕ → List Invitation → List Invitation
revoke_invitations account invitations =
    update_where (λ i. targets account i.target_account_id && is_pending_invitation i.status)
      revoked_invitation invitations

-- What is pending for the account ends.
unfoldable pub end_pending : ℕ → ℕ → Db → Db
end_pending now account db = record db {
  sessions = revoke_account_sessions now account db.sessions;
  resets = revoke_resets now account db.resets;
  role_changes = cancel_changes account db.role_changes;
  invitations = revoke_invitations account db.invitations;
}

-- UPDATE operator_accounts SET deleted_at, is_active = FALSE, with the triggers on the last active
-- Owner and the protected account
unfoldable pub mark_deleted : Env → ℕ → Account → Tx Db (Unit {0})
mark_deleted env now a = do
  others ← gets (λ db. exists_where (is_other_owner a) db.accounts)
  raise_if (is_owner a.role && a.is_active && not others)
      (internal_error "At least one active Owner must remain")
  raise_if (a.id == 0 || str_eq (env.lower a.username) "brad")
      (internal_error "Brad account role, status and lifecycle are permanently protected")
  modify (λ db. record db {
    accounts =
        update_account a (λ b. record b { deleted_at = some now; is_active = false }) db.accounts;
  })

-- `delete_operator_account`
unfoldable pub delete_operator_account :
    Env → Context → Operator → ℕ → String → Tx Db (Reply (Unit {0}))
delete_operator_account env ctx o id reason = do
  target ← fetch_account id
  if is_protected_brad_account env target then refuse_protected ctx o target.id "delete" else (do
    raise_if (is_owner target.role)
        (http 409 "Owner accounts cannot be deleted from Client Managers")
    raise_if target.is_active (http 409 "Disable the account before deleting it")
    modify (end_pending ctx.now target.id)
    audit_account ctx o "operator.deleted" target.id (env.strip reason)
    mark_deleted env ctx.now target
    pure (accepted tt))
