-- ===== src/Operators/Changes.antt =====
-- main.py: requests to change an operator's role, which an Owner makes, with a new proof of password and
-- code where an Owner's rights are at stake.
use rustdesk_managed_directo.Common.{
  ℕ, String, ◌+◌, ◌*◌, Bool, false, not, ◌&&◌, ◌||◌, Option, none, some, List, ◌∷◌, ◌==◌, leb, ltb,
  if◌then◌else◌, is_null, find_where, exists_where, update_where,
}
use rustdesk_managed_directo.Http.{
  HttpError, http, internal_error, Tx, Reply, accepted, refused, done, raised, raise_if, raise,
  gets, modify, pure, ◌>>=◌, ◌>>◌,
}
use rustdesk_managed_directo.Store.{
  Account, Role, RoleChange, ChangeStatus, Db, is_owner, is_pending_change, same_role,
}
use rustdesk_managed_directo.Store.Env.{Env}
use rustdesk_managed_directo.Store.Queries.{found}
use rustdesk_managed_directo.Lifecycle.{Context}
use rustdesk_managed_directo.Operators.Gates.{Operator}
use rustdesk_managed_directo.Operators.Accounts.{is_protected_brad_account, audit_account}

-- `OperatorRoleChangeCreateRequest`
pub record ChangeRequest : Type 0 where
  pub requested_role : Role
  pub reason : String
  pub expires_in_minutes : ℕ
  pub owner_password : Option String
  pub owner_totp_code : Option String

abbrev pub code_fits : Env → ℕ → Option String → String → Bool
code_fits env now none code = false
code_fits env now (some secret) code = env.totp_verify secret code now

-- What `verify_owner_reauthentication` asks of the Owner's row.
unfoldable pub reauthenticates : Env → ℕ → String → String → Option Account → Bool
reauthenticates env now password code none = false
reauthenticates env now password code (some a) =
    env.crypt_matches password a.password_hash
    && a.is_active
    && is_owner a.role
    && not a.must_change_password
    && a.totp_enabled
    && code_fits env now a.totp_secret code

unfoldable pub account_row : ℕ → List Account → Option Account
account_row id accounts = find_where (λ a. a.id == id) accounts

abbrev missing_proof : HttpError
missing_proof = http 422 "Owner password and authenticator code are required for this role change"

-- `verify_owner_reauthentication`, with the time at which both were verified
unfoldable pub verify_owner_reauthentication : Env → ℕ → ℕ → Option String → Option String → Tx Db ℕ
verify_owner_reauthentication env now owner none code = raise missing_proof
verify_owner_reauthentication env now owner (some password) none = raise missing_proof
verify_owner_reauthentication env now owner (some password) (some code) = do
  proven ← gets (λ db. reauthenticates env now password code (account_row owner db.accounts))
  raise_if (not proven) (http 401 "Owner password or authenticator code is invalid")
  pure now

-- UPDATE … SET status = 'expired' WHERE status = 'pending' AND expires_at <= …
unfoldable pub expire_changes : ℕ → List RoleChange → List RoleChange
expire_changes now changes =
    update_where (λ c. is_pending_change c.status && leb c.expires_at now)
      (λ c. record c { status = ChangeStatus.expired }) changes

abbrev pub set_change : ℕ → (RoleChange → RoleChange) → List RoleChange → List RoleChange
set_change id change changes = update_where (λ c. c.id == id) change changes

-- An active Owner's row.
unfoldable pub is_active_owner_row : Option Account → Bool
is_active_owner_row none = false
is_active_owner_row (some a) = a.is_active && is_owner a.role

-- A promotion asks for both proofs.
unfoldable pub is_unproven : RoleChange → Bool
is_unproven c =
    is_owner c.requested_role
    && (is_null c.owner_password_verified_at || is_null c.owner_totp_verified_at)

-- The target may not become an Owner.
unfoldable pub is_unprepared : Role → Account → Bool
is_unprepared role a = is_owner role && (not a.totp_enabled || a.must_change_password)

-- INSERT, with validate_operator_role_change_request, the CHECKs and the unique indexes of the table.
unfoldable pub insert_role_change : RoleChange → Tx Db (Unit {0})
insert_role_change c = do
  requester ← gets (λ db. account_row c.requested_by db.accounts)
  raise_if (not (is_active_owner_row requester))
      (internal_error "Only an active Owner may request an operator role change")
  raise_if (c.requested_by == c.target_account_id) (internal_error "Self-promotion is not allowed")
  raise_if (is_unproven c)
      (internal_error "Owner password and TOTP verification are required for Owner promotion")
  raise_if (not (ltb c.created_at c.expires_at))
      (internal_error "operator_role_change_requests_check")
  waiting ← gets (λ db.
      exists_where (λ d. is_pending_change d.status && d.target_account_id == c.target_account_id)
        db.role_changes)
  raise_if waiting (http 409 "A pending role-change request already exists for this operator")
  clash ← gets (λ db. exists_where (λ d. d.id == c.id) db.role_changes)
  raise_if clash (http 409 "A pending role-change request already exists for this operator")
  modify (λ db. record db { role_changes = c ∷ db.role_changes })

-- `except (CheckViolation, RaiseException)`: what the database raises is answered with 409.
unfoldable pub as_conflict : {A : Type 0} → Tx Db A → Tx Db A
as_conflict m db = elim (m db) [
  | done a t ↦ done a t
  | raised e ↦ raised (if e.status_code == 500 then http 409 e.detail else e)
]

abbrev pub sensitive_owner_change : Account → Role → Bool
sensitive_owner_change target role = is_owner target.role || is_owner role

unfoldable pub verified_at : Env → Context → Operator → Account → ChangeRequest → Tx Db (Option ℕ)
verified_at env ctx o target r =
    if sensitive_owner_change target r.requested_role
    then (do
      at ← verify_owner_reauthentication env ctx.now o.account_id r.owner_password r.owner_totp_code
      pure (some at))
    else pure none

abbrev pub new_change : Context → Operator → ℕ → ChangeRequest → Option ℕ → RoleChange
new_change ctx o target r verified = record {
  id = ctx.fresh_id;
  target_account_id = target;
  requested_role = r.requested_role;
  requested_by = o.account_id;
  owner_password_verified_at = verified;
  owner_totp_verified_at = verified;
  status = ChangeStatus.pending;
  created_at = ctx.now;
  expires_at = ctx.now + r.expires_in_minutes * 60;
  completed_by = none;
}

-- The answer about the protected account, behind a log row that is committed.
unfoldable pub refuse_role_change : {A : Type 0} → Context → Operator → ℕ → Tx Db (Reply A)
refuse_role_change ctx o target = do
  audit_account ctx o "operator.protected_role_change_blocked" target ""
  pure (refused (http 409 "Brad account role is permanently protected as Owner"))

unfoldable pub request_change : Env → Context → Operator → Account → ChangeRequest → Tx Db (Reply ℕ)
request_change env ctx o target r = do
  raise_if (target.id == o.account_id) (http 409 "Owners cannot change their own role")
  raise_if (not target.is_active)
      (http 409 "Inactive operator accounts cannot receive a role change")
  raise_if (same_role target.role r.requested_role)
      (http 409 "The operator already has the requested role")
  raise_if (is_unprepared r.requested_role target) (
      http 409
        "The target must have a confirmed authenticator and completed password setup before Owner promotion")
  verified ← verified_at env ctx o target r
  as_conflict (insert_role_change (new_change ctx o target.id r verified))
  audit_account ctx o "operator.role_change_requested" target.id (env.strip r.reason)
  pure (accepted ctx.fresh_id)

-- `create_operator_role_change_request`, with the id of the request
unfoldable pub create_operator_role_change_request :
    Env → Context → Operator → ℕ → ChangeRequest → Tx Db (Reply ℕ)
create_operator_role_change_request env ctx o id r = do
  raise_if (ltb r.expires_in_minutes 5 || ltb 60 r.expires_in_minutes) (http 422 "")
  modify (λ db. record db { role_changes = expire_changes ctx.now db.role_changes })
  selected ← gets (λ db. account_row id db.accounts)
  target ← found selected (http 404 "Operator account was not found")
  if is_protected_brad_account env target
      then refuse_role_change ctx o target.id
      else request_change env ctx o target r
