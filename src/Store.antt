-- ===== src/Store.antt =====
-- The directory's database: the tables of migrations/*.sql that the modelled handlers touch, with
-- the columns that they read or write. Ids are numbers, instants are seconds, keys, hashes and
-- labels are texts. A column that no modelled handler reads (user agents, display names, the JSON of
-- `details`) is left out.
mod Accounts
pub mod Triggers
pub mod Queries
pub mod Env
pub mod View
pub mod Keyed
pub mod Backed
pub mod Sound
pub mod Moves
pub mod Phases
pub mod Rules
pub mod Rows
pub mod Names
use rustdesk_managed_directo.Common.{ℕ, String, Bool, true, false, Option, List}
pub use Accounts.*

-- managed_devices.status
pub data Status : Type 0 where
  pending approved denied blocked revoked : Status

pub record Device : Type 0 where
  pub id : ℕ
  pub rustdesk_id : String
  pub hostname : String
  pub friendly_name : Option String
  pub contact_email : Option String
  pub device_public_key : String
  pub status : Status
  pub status_reason : Option String
  pub status_changed_by : Option ℕ
  pub status_changed_at : Option ℕ
  pub last_ip : Option String
  pub last_seen_at : Option ℕ
  pub poll_token_hash : Option String
  pub poll_expires_at : Option ℕ
  pub identity_public_key : Option String
  pub key_protection : Option String
  pub passport_serial : Option String

-- device_credentials
pub record Credential : Type 0 where
  pub device_id : ℕ
  pub credential_serial : ℕ
  pub issued_by : ℕ
  pub issued_at : ℕ
  pub expires_at : Option ℕ
  pub revoked_at : Option ℕ
  pub revoked_by : Option ℕ
  pub revocation_reason : Option String

-- relay_access_leases
pub record Lease : Type 0 where
  pub id : ℕ
  pub device_id : ℕ
  pub credential_serial : ℕ
  pub source_ip : String
  pub issued_at : ℕ
  pub expires_at : ℕ
  pub revoked_at : Option ℕ

-- device_reenrollment_authorizations
pub record Authorization : Type 0 where
  pub id : ℕ
  pub device_id : ℕ
  pub requested_by : ℕ
  pub reason : String
  pub created_at : ℕ
  pub expires_at : ℕ
  pub consumed_at : Option ℕ
  pub revoked_at : Option ℕ

-- device_reenrollment_requests
pub record Recovery : Type 0 where
  pub id : ℕ
  pub device_id : ℕ
  pub requested_at : ℕ
  pub expires_at : ℕ
  pub fulfilled_at : Option ℕ
  pub cancelled_at : Option ℕ

-- enrollment_secrets
pub record Secret : Type 0 where
  pub id : ℕ
  pub password_hash : String
  pub is_active : Bool
  pub max_uses : Option ℕ
  pub use_count : ℕ
  pub created_at : ℕ
  pub expires_at : Option ℕ
  pub revoked_at : Option ℕ
  pub revoked_by : Option ℕ
  pub revocation_reason : Option String

-- device_enrollment_events.result
pub data EnrollmentResult : Type 0 where
  accepted_pending rejected_bad_secret rejected_expired : EnrollmentResult
  rejected_revoked rejected_limit duplicate : EnrollmentResult

-- device_enrollment_events, with the `reason` of its details
pub record EnrollmentEvent : Type 0 where
  pub device_id : Option ℕ
  pub secret_id : Option ℕ
  pub rustdesk_id : String
  pub source_ip : Option String
  pub result : EnrollmentResult
  pub reason : String
  pub created_at : ℕ

-- device_status_history
pub record StatusChange : Type 0 where
  pub device_id : ℕ
  pub from_status : Option Status
  pub to_status : Status
  pub changed_by : Option ℕ

-- audit_events
pub record Audit : Type 0 where
  pub event_type : String
  pub actor : Option ℕ
  pub target_id : Option ℕ
  pub source_ip : Option String
  pub reason : String

-- ca_jobs.kind
pub data JobKind : Type 0 where
  issue renew keyupdate revoke : JobKind

pub record Job : Type 0 where
  pub id : ℕ
  pub kind : JobKind
  pub device_id : Option ℕ
  pub expected_idk : Option String
  pub expected_prot : Option String
  pub is_done : Bool
  pub ok : Option Bool

-- device_passports
pub record Passport : Type 0 where
  pub serial : String
  pub device_id : ℕ
  pub kind : JobKind
  pub passport : String
  pub job_id : ℕ

-- edge_client_certs
pub record EdgeCert : Type 0 where
  pub cf_cert_id : String
  pub device_id : Option ℕ
  pub revoked_at : Option ℕ

-- directory_settings.setting_value, a JSON value: a number or Boolean as `int` reads it, a text, or
-- anything else
pub data SettingValue : Type 0 where
  number : ℕ → SettingValue
  text : String → SettingValue
  other : SettingValue

pub record Setting : Type 0 where
  pub setting_key : String
  pub setting_value : SettingValue

pub record Db : Type 0 where
  pub devices : List Device
  pub credentials : List Credential
  pub leases : List Lease
  pub authorizations : List Authorization
  pub recoveries : List Recovery
  pub secrets : List Secret
  pub enrollment_events : List EnrollmentEvent
  pub accounts : List Account
  pub sessions : List Session
  pub history : List StatusChange
  pub audit : List Audit
  pub jobs : List Job
  pub passports : List Passport
  pub edge_certs : List EdgeCert
  pub settings : List Setting
  pub invitations : List Invitation
  pub role_changes : List RoleChange
  pub resets : List Reset
  pub instance_id : ℕ

abbrev pub is_pending : Status → Bool
is_pending pending = true
is_pending _ = false

abbrev pub is_approved : Status → Bool
is_approved approved = true
is_approved _ = false

abbrev pub is_denied : Status → Bool
is_denied denied = true
is_denied _ = false

abbrev pub is_blocked : Status → Bool
is_blocked blocked = true
is_blocked _ = false

abbrev pub is_revoked : Status → Bool
is_revoked revoked = true
is_revoked _ = false

-- status IN ('pending', 'approved', 'blocked')
abbrev pub reserves_name : Status → Bool
reserves_name pending = true
reserves_name approved = true
reserves_name blocked = true
reserves_name _ = false

-- status IN ('denied', 'blocked')
abbrev pub is_recoverable : Status → Bool
is_recoverable denied = true
is_recoverable blocked = true
is_recoverable _ = false
