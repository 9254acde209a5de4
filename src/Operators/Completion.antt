-- ===== src/Operators/Completion.antt =====
-- main.py: the completion of a request to change a role, with the trigger that changes the role, and
-- its cancellation.
use rustdesk_managed_directo.Common.{
  ℕ, String, not, ◌&&◌, ◌||◌, some, ◌==◌, str_eq, leb, if◌then◌else◌, is_null, find_where,
  exists_where, count_where,
}
use rustdesk_managed_directo.Http.{
  http, internal_error, Tx, Reply, accepted, refused, raise_if, gets, modify, pure, ◌>>=◌, ◌>>◌,
}
use rustdesk_managed_directo.Store.{
  Account, Role, RoleChange, ChangeStatus, Db, is_owner, is_pending_change, same_role,
}
use rustdesk_managed_directo.Store.Env.{Env}
use rustdesk_managed_directo.Store.Queries.{found}
use rustdesk_managed_directo.Lifecycle.{Context}
use rustdesk_managed_directo.Operators.Gates.{Operator}
use rustdesk_managed_directo.Operators.SignIn.{update_account}
use rustdesk_managed_directo.Operators.Accounts.{
  is_protected_brad_account, fetch_account, is_other_owner, revoke_account_sessions, audit_account,
}
use rustdesk_managed_directo.Operators.Changes.{
  account_row, is_active_owner_row, is_unproven, is_unprepared, set_change, as_conflict,
  refuse_role_change,
}

-- Marks the request expired, commits, and refuses.
unfoldable pub refuse_late : {A : Type 0} → RoleChange → Tx Db (Reply A)
refuse_late c = do
  modify (λ db. record db {
    role_changes =
        set_change c.id (λ d. record d { status = ChangeStatus.expired }) db.role_changes;
  })
  pure (refused (http 410 "Operator role-change request has expired"))

-- UPDATE operator_accounts SET role, with the triggers on the last active Owner and the protected
-- account; the flag that guard_direct_operator_role_mutation asks for is set.
unfoldable pub update_role : Env → Account → Role → Tx Db (Unit {0})
update_role env a role = do
  others ← gets (λ db. exists_where (is_other_owner a) db.accounts)
  raise_if (is_owner a.role && a.is_active && not (is_owner role) && not others)
      (internal_error "At least one active Owner must remain")
  raise_if (not (same_role a.role role) && (a.id == 0 || str_eq (env.lower a.username) "brad"))
      (internal_error "Brad account role, status and lifecycle are permanently protected")
  modify
      (λ db. record db { accounts = update_account a (λ b. record b { role = role }) db.accounts })

-- `apply_completed_operator_role_change`, the trigger on a request that becomes completed
unfoldable pub apply_completed_change : Env → Context → ℕ → RoleChange → Account → Tx Db (Unit {0})
apply_completed_change env ctx completer c target = do
  row ← gets (λ db. account_row completer db.accounts)
  raise_if (not (is_active_owner_row row))
      (internal_error "Only an active Owner may complete a role change")
  raise_if (completer == c.target_account_id) (internal_error "Self-promotion is not allowed")
  raise_if (not target.is_active)
      (internal_error "Inactive operator accounts cannot receive a role change")
  raise_if (is_unprepared c.requested_role target)
      (internal_error "The new Owner must set their own password and TOTP before promotion")
  update_role env target c.requested_role

abbrev pub completed_by_owner : ℕ → RoleChange → RoleChange
completed_by_owner completer c = record c {
  status = ChangeStatus.completed;
  completed_by = some completer;
}

unfoldable pub complete_change :
    Env → Context → Operator → RoleChange → Account → String → Tx Db (Reply ℕ)
complete_change env ctx o c target reason = do
  raise_if (c.target_account_id == o.account_id)
      (http 409 "Owners cannot complete a change to their own role")
  raise_if (not target.is_active)
      (http 409 "Inactive operator accounts cannot receive a role change")
  raise_if (same_role target.role c.requested_role)
      (http 409 "The operator already has the requested role")
  raise_if (is_unproven c || is_unprepared c.requested_role target)
      (http 409 "Owner promotion prerequisites are no longer satisfied")
  modify (λ db. record db {
    role_changes = set_change c.id (completed_by_owner o.account_id) db.role_changes;
  })
  apply_completed_change env ctx o.account_id c target
  audit_account ctx o "operator.role_changed" c.target_account_id ""
  ended ← gets (λ db.
      count_where (λ s. s.account_id == c.target_account_id && is_null s.revoked_at) db.sessions)
  modify (λ db. record db {
    sessions = revoke_account_sessions ctx.now c.target_account_id db.sessions;
  })
  audit_account ctx o "operator.role_change_completed" c.target_account_id (env.strip reason)
  shown ← fetch_account c.target_account_id
  pure (accepted ended)

-- The request's row, joined with its target's.
unfoldable pub fetch_change : ℕ → Tx Db (RoleChange × Account)
fetch_change id = do
  selected ← gets (λ db. find_where (λ c. c.id == id) db.role_changes)
  c ← found selected (http 404 "Operator role-change request was not found")
  target ← gets (λ db. account_row c.target_account_id db.accounts)
  a ← found target (http 404 "Operator role-change request was not found")
  pure (c, a)

-- `complete_operator_role_change_request`, with the number of sessions that it revokes
unfoldable pub complete_operator_role_change_request :
    Env → Context → Operator → ℕ → String → Tx Db (Reply ℕ)
complete_operator_role_change_request env ctx o id reason = as_conflict (do
  row ← fetch_change id
  raise_if (not (is_pending_change row.0.status))
      (http 409 "Only pending role-change requests can be completed")
  if leb row.0.expires_at ctx.now
      then refuse_late row.0
      else if is_protected_brad_account env row.1
      then refuse_role_change ctx o row.1.id
      else complete_change env ctx o row.0 row.1 reason)

-- `cancel_operator_role_change_request`
unfoldable pub cancel_operator_role_change_request :
    Env → Context → Operator → ℕ → String → Tx Db (Reply (Unit {0}))
cancel_operator_role_change_request env ctx o id reason = do
  row ← fetch_change id
  raise_if (not (is_pending_change row.0.status))
      (http 409 "Only pending role-change requests can be cancelled")
  if leb row.0.expires_at ctx.now then refuse_late row.0 else (do
    modify (λ db. record db {
      role_changes =
          set_change row.0.id (λ c. record c { status = ChangeStatus.cancelled }) db.role_changes;
    })
    audit_account ctx o "operator.role_change_cancelled" row.0.target_account_id (env.strip reason)
    pure (accepted tt))
