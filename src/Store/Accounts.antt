-- ===== src/Store/Accounts.antt =====
-- The tables of operators: accounts, sessions, invitations, requests to change a role, and links that
-- reset access.
use rustdesk_managed_directo.Common.{ℕ, String, Bool, true, false, Option}

-- operator_accounts.role
pub data Role : Type 0 where
  owner manager viewer : Role

pub record Account : Type 0 where
  pub id : ℕ
  pub username : String
  pub role : Role
  pub is_active : Bool
  pub must_change_password : Bool
  pub password_hash : String
  pub totp_enabled : Bool
  pub totp_secret : Option String
  pub failed_login_count : ℕ
  pub locked_until : Option ℕ
  pub last_login_at : Option ℕ
  pub deleted_at : Option ℕ

-- operator_sessions.scope
pub data Scope : Type 0 where
  full mobile : Scope

pub record Session : Type 0 where
  pub id : ℕ
  pub account_id : ℕ
  pub access_token_hash : String
  pub refresh_token_hash : String
  pub mfa_verified_at : Option ℕ
  pub created_at : ℕ
  pub expires_at : ℕ
  pub last_seen_at : Option ℕ
  pub revoked_at : Option ℕ
  pub scope : Scope

-- operator_invitations
pub data InvitationStatus : Type 0 where
  pending accepted revoked expired : InvitationStatus

pub record Invitation : Type 0 where
  pub id : ℕ
  pub target_account_id : Option ℕ
  pub proposed_username : Option String
  pub requested_role : Role
  pub token_hash : String
  pub created_by : ℕ
  pub created_at : ℕ
  pub expires_at : ℕ
  pub status : InvitationStatus
  pub accepted_account_id : Option ℕ

-- operator_role_change_requests
pub data ChangeStatus : Type 0 where
  pending completed rejected cancelled expired : ChangeStatus

pub record RoleChange : Type 0 where
  pub id : ℕ
  pub target_account_id : ℕ
  pub requested_role : Role
  pub requested_by : ℕ
  pub owner_password_verified_at : Option ℕ
  pub owner_totp_verified_at : Option ℕ
  pub status : ChangeStatus
  pub created_at : ℕ
  pub expires_at : ℕ
  pub completed_by : Option ℕ

-- operator_access_resets
pub data ResetMode : Type 0 where
  password_only totp_only password_totp : ResetMode

pub record Reset : Type 0 where
  pub id : ℕ
  pub account_id : ℕ
  pub token_hash : String
  pub reset_mode : ResetMode
  pub requested_by : ℕ
  pub created_at : ℕ
  pub expires_at : ℕ
  pub used_at : Option ℕ
  pub revoked_at : Option ℕ

abbrev pub is_owner : Role → Bool
is_owner owner = true
is_owner _ = false

-- role IN ('owner', 'manager')
abbrev pub manages_devices : Role → Bool
manages_devices viewer = false
manages_devices _ = true

abbrev pub is_mobile : Scope → Bool
is_mobile mobile = true
is_mobile full = false

abbrev pub is_pending_invitation : InvitationStatus → Bool
is_pending_invitation InvitationStatus.pending = true
is_pending_invitation _ = false

abbrev pub is_pending_change : ChangeStatus → Bool
is_pending_change ChangeStatus.pending = true
is_pending_change _ = false

abbrev pub is_completed : ChangeStatus → Bool
is_completed ChangeStatus.completed = true
is_completed _ = false

abbrev pub same_role : Role → Role → Bool
same_role owner owner = true
same_role manager manager = true
same_role viewer viewer = true
same_role _ _ = false

-- reset_mode IN ('password_only', 'password_totp'), and IN ('totp_only', 'password_totp')
abbrev pub resets_password : ResetMode → Bool
resets_password totp_only = false
resets_password _ = true

abbrev pub resets_totp : ResetMode → Bool
resets_totp password_only = false
resets_totp _ = true
