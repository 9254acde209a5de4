-- ===== src/Operators/Invitations.antt =====
-- main.py: the invitations of operators, which an Owner sends and revokes, and with which the invited
-- person sets a password and an authenticator. The limits on the lengths of fields are left out.
use rustdesk_managed_directo.Common.{
  ℕ, String, ◌+◌, ◌*◌, ◌<>◌, Bool, true, false, not, ◌&&◌, ◌||◌, Option, none, some, List, ◌∷◌,
  ◌==◌, str_eq, leb, ltb, if◌then◌else◌, is_null, find_where, exists_where, update_where,
}
use rustdesk_managed_directo.Http.{
  http, internal_error, Tx, Reply, accepted, refused, raise_if, raise, gets, modify, pure, ◌>>=◌,
  ◌>>◌,
}
use rustdesk_managed_directo.Store.{
  Account, Role, Invitation, InvitationStatus, Db, is_owner, is_pending_invitation,
}
use rustdesk_managed_directo.Store.Env.{Env}
use rustdesk_managed_directo.Store.Queries.{found, write_audit}
use rustdesk_managed_directo.Lifecycle.{Context}
use rustdesk_managed_directo.Operators.Gates.{Operator}
use rustdesk_managed_directo.Operators.SignIn.{find_account}

-- `OperatorInvitationCreateRequest`
pub record InvitationRequest : Type 0 where
  pub username : String
  pub display_name : String
  pub role : Role
  pub expires_in_hours : ℕ

-- `OperatorInvitationAcceptRequest`
pub record AcceptRequest : Type 0 where
  pub invitation_token : String
  pub password : String
  pub totp_code : String

unfoldable pub invitation_token_hash : Env → String → String
invitation_token_hash env token = env.hmac_sha256 env.token_secret ("operator-invitation:" <> token)

unfoldable pub invitation_totp_secret : Env → String → String
invitation_totp_secret env token =
    env.b32encode (env.hmac_sha256 env.totp_key ("operator-invitation-totp:" <> token))

-- UPDATE … SET status = 'expired' WHERE status = 'pending' AND expires_at <= …
unfoldable pub expire_invitations : ℕ → List Invitation → List Invitation
expire_invitations now invitations =
    update_where (λ i. is_pending_invitation i.status && leb i.expires_at now)
      (λ i. record i { status = InvitationStatus.expired }) invitations

abbrev pub set_invitation : ℕ → (Invitation → Invitation) → List Invitation → List Invitation
set_invitation id change invitations = update_where (λ i. i.id == id) change invitations

-- WHERE status = 'pending' AND LOWER(proposed_username) = LOWER(…)
unfoldable pub is_invited : Env → String → Invitation → Bool
is_invited env username i = is_pending_invitation i.status && (elim i.proposed_username [
  | none ↦ false
  | some name ↦ str_eq (env.lower name) (env.lower username)
])

-- The bounds of the payload's fields.
unfoldable pub is_invalid : InvitationRequest → Bool
is_invalid r = is_owner r.role || r.expires_in_hours == 0 || ltb 720 r.expires_in_hours

abbrev pub audit_invitation : Context → ℕ → String → ℕ → String → Tx Db (Unit {0})
audit_invitation ctx actor event target reason = write_audit (record {
  event_type = event;
  actor = some actor;
  target_id = some target;
  source_ip = ctx.source_ip;
  reason = reason;
})

abbrev pub new_invitation : Env → Context → Operator → InvitationRequest → Invitation
new_invitation env ctx o r = record {
  id = ctx.fresh_id;
  target_account_id = none;
  proposed_username = some (env.strip r.username);
  requested_role = r.role;
  token_hash = invitation_token_hash env ("rdi_" <> ctx.fresh_token);
  created_by = o.account_id;
  created_at = ctx.now;
  expires_at = ctx.now + r.expires_in_hours * 3600;
  status = InvitationStatus.pending;
  accepted_account_id = none;
}

-- INSERT, whose UniqueViolation is answered with 409: the digest is unique, as is the id, and the
-- name among the pending invitations.
unfoldable pub insert_invitation : Env → Invitation → Tx Db (Unit {0})
insert_invitation env i = do
  clash ←
      gets
        (λ db. exists_where (λ j. j.id == i.id || str_eq j.token_hash i.token_hash) db.invitations)
  raise_if clash (http 409 "That invitation conflicts with an existing invitation")
  modify (λ db. record db { invitations = i ∷ db.invitations })

-- `create_operator_invitation`, with the token that it answers
unfoldable pub create_operator_invitation :
    Env → Context → Operator → InvitationRequest → Tx Db (Reply String)
create_operator_invitation env ctx o r = do
  raise_if (is_invalid r) (http 422 "")
  raise_if (str_eq (env.strip r.username) "" || str_eq (env.strip r.display_name) "")
      (http 422 "Username and display name cannot be blank")
  modify (λ db. record db { invitations = expire_invitations ctx.now db.invitations })
  account ← gets (λ db. find_account env (env.strip r.username) db.accounts)
  raise_if (not (is_null account)) (http 409 "An operator account already uses that username")
  invited ← gets (λ db. exists_where (is_invited env (env.strip r.username)) db.invitations)
  raise_if invited (http 409 "A pending invitation already uses that username")
  insert_invitation env (new_invitation env ctx o r)
  audit_invitation ctx o.account_id "operator.invitation_created" ctx.fresh_id ""
  pure (accepted ("rdi_" <> ctx.fresh_token))

-- Marks the invitation expired, commits, and refuses.
unfoldable pub refuse_expired : {A : Type 0} → Invitation → Tx Db (Reply A)
refuse_expired i = do
  modify (λ db. record db {
    invitations =
        set_invitation i.id (λ j. record j { status = InvitationStatus.expired }) db.invitations;
  })
  pure (refused (http 410 "Operator invitation has expired"))

abbrev pub revoked_invitation : Invitation → Invitation
revoked_invitation i = record i { status = InvitationStatus.revoked }

-- `revoke_operator_invitation`
unfoldable pub revoke_operator_invitation :
    Env → Context → Operator → ℕ → String → Tx Db (Reply (Unit {0}))
revoke_operator_invitation env ctx o id reason = do
  selected ← gets (λ db. find_where (λ i. i.id == id) db.invitations)
  i ← found selected (http 404 "Operator invitation was not found")
  if is_pending_invitation i.status && leb i.expires_at ctx.now then refuse_expired i else (do
    raise_if (not (is_pending_invitation i.status))
        (http 409 "Only pending invitations can be revoked")
    modify (λ db. record db { invitations = set_invitation i.id revoked_invitation db.invitations })
    audit_invitation ctx o.account_id "operator.invitation_revoked" i.id (env.strip reason)
    pure (accepted tt))

-- The row of a token, whose creator's account is joined.
unfoldable pub has_token : Env → String → List Account → Invitation → Bool
has_token env token accounts i =
    str_eq i.token_hash (invitation_token_hash env token)
    && exists_where (λ a. a.id == i.created_by) accounts

unfoldable pub pending_invitation_for_token : Env → String → Tx Db Invitation
pending_invitation_for_token env token = do
  selected ← gets (λ db. find_where (has_token env token db.accounts) db.invitations)
  found selected (http 401 "Invalid or unavailable invitation")

-- What setup and accept check before they go on.
unfoldable pub with_invitation :
    {A : Type 0} → Env → ℕ → String → (Invitation → Tx Db (Reply A)) → Tx Db (Reply A)
with_invitation env now token next = do
  i ← pending_invitation_for_token env token
  raise_if (not (is_pending_invitation i.status)) (http 409 "Invitation is no longer pending")
  if leb i.expires_at now then refuse_expired i else (do
    raise_if (is_owner i.requested_role)
        (http 409 "This invitation requires the protected Owner promotion workflow")
    next i)

-- `setup_operator_invitation`, with the secret that it answers
unfoldable pub setup_operator_invitation : Env → ℕ → String → Tx Db (Reply String)
setup_operator_invitation env now token =
    with_invitation env now token (λ i. pure (accepted (invitation_totp_secret env token)))

-- The account's row.
abbrev pub new_account : Env → ℕ → String → AcceptRequest → Invitation → String → Account
new_account env id salt r i username = record {
  id = id;
  username = username;
  role = i.requested_role;
  is_active = true;
  must_change_password = false;
  password_hash = env.crypt r.password salt;
  totp_enabled = true;
  totp_secret = some (invitation_totp_secret env r.invitation_token);
  failed_login_count = 0;
  locked_until = none;
  last_login_at = none;
  deleted_at = none;
}

-- INSERT, whose UniqueViolation is answered with 409. Only the role of an Owner is guarded by a
-- trigger on inserts.
unfoldable pub insert_account : Account → Tx Db (Unit {0})
insert_account a = do
  clash ← gets (λ db. exists_where (λ b. b.id == a.id) db.accounts)
  raise_if clash (http 409 "An operator account already uses that username")
  modify (λ db. record db { accounts = a ∷ db.accounts })

abbrev pub accepted_as : ℕ → Invitation → Invitation
accepted_as account i = record i {
  status = InvitationStatus.accepted;
  accepted_account_id = some account;
}

unfoldable pub accept_named :
    Env → Context → String → AcceptRequest → Invitation → Option String → Tx Db (Reply ℕ)
accept_named env ctx salt r i none = raise (internal_error "username")
accept_named env ctx salt r i (some username) = do
  account ← gets (λ db. find_account env username db.accounts)
  raise_if (not (is_null account)) (http 409 "An operator account already uses that username")
  insert_account (new_account env ctx.fresh_id salt r i username)
  modify (λ db. record db {
    invitations = set_invitation i.id (accepted_as ctx.fresh_id) db.invitations;
  })
  audit_invitation ctx ctx.fresh_id "operator.invitation_accepted" i.id ""
  pure (accepted ctx.fresh_id)

-- `accept_operator_invitation`, with the id of the account that it creates
unfoldable pub accept_operator_invitation : Env → Context → String → AcceptRequest → Tx Db (Reply ℕ)
accept_operator_invitation env ctx salt r = with_invitation env ctx.now r.invitation_token (λ i. do
  raise_if
      (not (env.totp_verify (invitation_totp_secret env r.invitation_token) r.totp_code ctx.now))
      (http 401 "Invalid authenticator code")
  accept_named env ctx salt r i i.proposed_username)
