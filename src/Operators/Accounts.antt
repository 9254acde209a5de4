-- ===== src/Operators/Accounts.antt =====
-- main.py: what an Owner does to the accounts of other operators, with the triggers on
-- operator_accounts that guard the last active Owner and the protected account.
use rustdesk_managed_directo.Common.{
  ℕ, String, Bool, true, false, not, ◌&&◌, ◌||◌, Option, none, some, List, ◌==◌, str_eq,
  if◌then◌else◌, is_null, find_where, exists_where, count_where, update_where,
}
use rustdesk_managed_directo.Http.{
  http, internal_error, Tx, Reply, accepted, refused, raise_if, gets, modify, pure, ◌>>=◌, ◌>>◌,
}
use rustdesk_managed_directo.Store.{Account, Session, Db, is_owner}
use rustdesk_managed_directo.Store.Env.{Env}
use rustdesk_managed_directo.Store.Queries.{found, write_audit}
use rustdesk_managed_directo.Lifecycle.{Context}
use rustdesk_managed_directo.Operators.Gates.{Operator}
use rustdesk_managed_directo.Operators.SignIn.{update_account}

-- `is_protected_brad_account`, where 0 is the nil UUID
unfoldable pub is_protected_brad_account : Env → Account → Bool
is_protected_brad_account env a = a.id == 0 || str_eq (env.lower (env.strip a.username)) "brad"

-- SELECT … WHERE id = … AND deleted_at IS NULL FOR UPDATE
unfoldable pub live_account : ℕ → List Account → Option Account
live_account id accounts = find_where (λ a. a.id == id && is_null a.deleted_at) accounts

unfoldable pub fetch_account : ℕ → Tx Db Account
fetch_account id db =
    found (live_account id db.accounts) (http 404 "Operator account was not found") db

-- An Owner who is active, other than the account.
unfoldable pub is_other_owner : Account → Account → Bool
is_other_owner a b = not (b.id == a.id) && is_owner b.role && b.is_active

-- UPDATE operator_accounts SET is_active = FALSE, with prevent_last_active_owner_loss and
-- protect_brad_operator_lifecycle, for an account that is active
unfoldable pub deactivate : Env → Account → Tx Db (Unit {0})
deactivate env a = do
  others ← gets (λ db. exists_where (is_other_owner a) db.accounts)
  raise_if (is_owner a.role && not others) (internal_error "At least one active Owner must remain")
  raise_if (a.id == 0 || str_eq (env.lower a.username) "brad")
      (internal_error "Brad account role, status and lifecycle are permanently protected")
  modify (λ db. record db {
    accounts = update_account a (λ b. record b { is_active = false }) db.accounts;
  })

-- UPDATE operator_accounts SET is_active = TRUE, for an account that is not active
unfoldable pub activate : Env → Account → Tx Db (Unit {0})
activate env a = do
  raise_if (a.id == 0 || str_eq (env.lower a.username) "brad")
      (internal_error "Brad account role, status and lifecycle are permanently protected")
  modify (λ db. record db {
    accounts = update_account a (λ b. record b { is_active = true }) db.accounts;
  })

unfoldable pub revoke_account_sessions : ℕ → ℕ → List Session → List Session
revoke_account_sessions now account sessions =
    update_where (λ s. s.account_id == account && is_null s.revoked_at)
      (λ s. record s { revoked_at = some now }) sessions

unfoldable pub audit_account : Context → Operator → String → ℕ → String → Tx Db (Unit {0})
audit_account ctx o event target reason = write_audit (record {
  event_type = event;
  actor = some o.account_id;
  target_id = some target;
  source_ip = ctx.source_ip;
  reason = reason;
})

-- The answer about the protected account, behind a log row that is committed.
unfoldable pub refuse_protected : Context → Operator → ℕ → String → Tx Db (Reply (Unit {0}))
refuse_protected ctx o target action = do
  audit_account ctx o "operator.protected_lifecycle_change_blocked" target action
  pure (refused (http 409 "Brad account status and lifecycle are permanently protected"))

unfoldable pub disable_live : Env → Context → Operator → Account → String → Tx Db (Reply (Unit {0}))
disable_live env ctx o a reason = do
  deactivate env a
  modify (λ db. record db { sessions = revoke_account_sessions ctx.now a.id db.sessions })
  audit_account ctx o "operator.disabled" a.id (env.strip reason)
  pure (accepted tt)

-- `disable_operator_account`
unfoldable pub disable_operator_account :
    Env → Context → Operator → ℕ → String → Tx Db (Reply (Unit {0}))
disable_operator_account env ctx o id reason = do
  target ← fetch_account id
  if is_protected_brad_account env target then refuse_protected ctx o target.id "disable" else (do
    raise_if (is_owner target.role) (http 409 "Owner accounts require the protected Owner workflow")
    if target.is_active then disable_live env ctx o target reason else pure (accepted tt))

unfoldable pub enable_idle : Env → Context → Operator → Account → String → Tx Db (Reply (Unit {0}))
enable_idle env ctx o a reason = do
  activate env a
  audit_account ctx o "operator.enabled" a.id (env.strip reason)
  pure (accepted tt)

-- `enable_operator_account`
unfoldable pub enable_operator_account :
    Env → Context → Operator → ℕ → String → Tx Db (Reply (Unit {0}))
enable_operator_account env ctx o id reason = do
  target ← fetch_account id
  if is_protected_brad_account env target then refuse_protected ctx o target.id "enable" else (do
    raise_if (is_owner target.role) (http 409 "Owner accounts require the protected Owner workflow")
    if target.is_active then pure (accepted tt) else enable_idle env ctx o target reason)

-- `unlock_operator_account`
unfoldable pub unlock_operator_account :
    Env → Context → Operator → ℕ → String → Tx Db (Reply (Unit {0}))
unlock_operator_account env ctx o id reason = do
  target ← fetch_account id
  modify (λ db. record db {
    accounts =
        update_account target (λ b. record b { failed_login_count = 0; locked_until = none })
          db.accounts;
  })
  audit_account ctx o "operator.unlocked" target.id (env.strip reason)
  pure (accepted tt)

-- `revoke_operator_sessions`, with the number of sessions that it revokes
unfoldable pub revoke_operator_sessions : Env → Context → Operator → ℕ → String → Tx Db (Reply ℕ)
revoke_operator_sessions env ctx o id reason = do
  target ← fetch_account id
  revoked ←
      gets (λ db. count_where (λ s. s.account_id == target.id && is_null s.revoked_at) db.sessions)
  modify (λ db. record db { sessions = revoke_account_sessions ctx.now target.id db.sessions })
  audit_account ctx o "operator.sessions_revoked" target.id (env.strip reason)
  pure (accepted revoked)
