-- ===== src/Tests.antt =====
-- Concrete tables and requests, and the properties applied to them.
mod Recovery
mod Passports
mod Limiter
mod Operators
mod SignIn
mod Accounts
mod Staff
mod Chat
mod Files
mod Sealed
mod Secrets
mod Upkeep
use rustdesk_managed_directo.Common.{
  ℕ, String, ◌≡◌, refl, true, false, Option, none, some, List, [], ◌∷◌, str_eq, leb, find_where,
  count_where, coalesce, latest_where, update_where,
}
use rustdesk_managed_directo.Http.{accepted, done, commit, ◌>>=◌}
use rustdesk_managed_directo.Http.Keeps.{Ends}
use rustdesk_managed_directo.Store.{
  Status, pending, approved, revoked, Device, Credential, EnrollmentEvent, rejected_bad_secret,
  Account, owner, full, Db,
}
use rustdesk_managed_directo.Store.Env.{Env, DeviceClaims}
use rustdesk_managed_directo.Store.Queries.{
  get_device, name_taken, reserves, get_device_for_update, ensure_friendly_name_available,
  write_audit, write_enrollment_event, sec8_enqueue, sec8_mode, stripped, active_device_credential,
}
use rustdesk_managed_directo.Store.View.{status_in}
use rustdesk_managed_directo.Store.Sound.{Sound}
use rustdesk_managed_directo.Store.Names.{Names, name_at, free_for_new}
use rustdesk_managed_directo.Store.Triggers.{
  may_change_status, update_status, guard_managed_device_status, insert_credential,
}
use rustdesk_managed_directo.Operators.Gates.{Operator, require_device_manager}
use rustdesk_managed_directo.Lifecycle.{
  Context, Approval, change_device_status, approve_device, revoke_device, apply_status,
  mark_approved, credential_of, issue_credential, terminal_cleanup, queue_first_passport,
  transition,
}
use rustdesk_managed_directo.Lifecycle.Closing.{Closed, revokes, change_device_status-Closed}
use rustdesk_managed_directo.Enrollment.{
  EnrollmentRequest, enroll_device, enroll_applicant, enroll_secret,
}
use rustdesk_managed_directo.Enrollment.Attempts.{
  log_and_refuse, recent_failures, is_recent_failure, find_secret,
}
use rustdesk_managed_directo.Enrollment.Inputs.{normalize_contact_email, decode_device_public_key}
use rustdesk_managed_directo.Recovery.{enrollment_status, polls}
use rustdesk_managed_directo.Enrollment.Limits.{TurnedAway, enroll_device-Limited}
use rustdesk_managed_directo.Devices.{
  accepts_device, accepts_credential, check_key, check_claims, validate_device_credential,
}
use rustdesk_managed_directo.System.{Request, poll, approve, revoke, enroll, handle, run}
use rustdesk_managed_directo.System.Sound.{run-Sound}
use rustdesk_managed_directo.System.Access.{Genuine, validate-Genuine, run-locked_out}
use rustdesk_managed_directo.System.RoundTrip.{approve_device-validates}

abbrev claims_1 : DeviceClaims
claims_1 = record {
  sub = 1;
  serial = 7;
  rustdesk_id = "100200300";
  pkh = "key-1";
  instance_id = 900;
  kind = "device_credential";
  iat = 50;
  exp = none;
}

-- An instance of what the code takes from outside: every text is its own digest, and there is one
-- token, "token-1".
abbrev pub env : Env
env = record {
  strip = λ s. s;
  lower_btrim = λ s. s;
  lower = λ s. s;
  hmac_sha256 = λ k m. m;
  sha256 = λ s. s;
  b64decode = λ s. some s;
  byte_length = λ s. 32;
  crypt = λ p salt. p;
  b32encode = λ digest. digest;
  first_20 = λ digest. digest;
  crypt_matches = λ p h. str_eq p h;
  email_regex = λ s. true;
  encode_device = λ c. "token-1";
  decode_device = λ t now. some claims_1;
  encode_access = λ c. "access";
  decode_access = λ t now. none;
  totp_verify = λ s c now. false;
  cf_revoke = λ c. true;
  parse_ip = λ s. some s;
  parse_int = λ s. none;
  device_secret = "device secret";
  token_secret = "token secret";
  totp_key = "totp key";
}

abbrev pub device : ℕ → String → Option String → Status → Device
device id rustdesk_id name status = record {
  id = id;
  rustdesk_id = rustdesk_id;
  hostname = "host";
  friendly_name = name;
  contact_email = none;
  device_public_key = "key-1";
  status = status;
  status_reason = none;
  status_changed_by = none;
  status_changed_at = none;
  last_ip = none;
  last_seen_at = none;
  poll_token_hash = none;
  poll_expires_at = none;
  identity_public_key = none;
  key_protection = none;
  passport_serial = none;
}

-- Device 1 is approved and has a credential, device 2 is pending, device 3 is revoked.
abbrev pub device_1 : Device
device_1 = device 1 "100200300" (some "desk") approved

abbrev device_2 : Device
device_2 = device 2 "200300400" (some "lab") pending

abbrev device_3 : Device
device_3 = device 3 "300400500" (some "lab") revoked

abbrev credential_1 : Credential
credential_1 = record {
  device_id = 1;
  credential_serial = 7;
  issued_by = 10;
  issued_at = 50;
  expires_at = none;
  revoked_at = none;
  revoked_by = none;
  revocation_reason = none;
}

abbrev failure : EnrollmentEvent
failure = record {
  device_id = none;
  secret_id = none;
  rustdesk_id = "999";
  source_ip = some "192.0.2.1";
  result = rejected_bad_secret;
  reason = "invalid_enrollment_password";
  created_at = 90;
}

abbrev pub account : Account
account = record {
  id = 10;
  username = "brad";
  role = owner;
  is_active = true;
  must_change_password = false;
  password_hash = "password";
  totp_enabled = false;
  totp_secret = none;
  failed_login_count = 0;
  locked_until = none;
  last_login_at = none;
  deleted_at = none;
}

abbrev pub db : Db
db = record {
  devices = device_1 ∷ device_2 ∷ device_3 ∷ [];
  credentials = credential_1 ∷ [];
  leases = [];
  authorizations = [];
  recoveries = [];
  secrets = [];
  enrollment_events =
      failure ∷ failure ∷ failure ∷ failure ∷ failure ∷ failure ∷ failure ∷ failure ∷ failure
      ∷ failure ∷ [];
  accounts = account ∷ [];
  sessions = [];
  history = [];
  audit = [];
  jobs = [];
  passports = [];
  edge_certs = [];
  settings = [];
  invitations = [];
  role_changes = [];
  resets = [];
  instance_id = 900;
}

abbrev pub ctx : Context
ctx = record {
  now = 100;
  source_ip = some "192.0.2.1";
  fresh_id = 4;
  fresh_serial = 8;
  fresh_token = "poll-4";
  job_id = 30;
}

abbrev pub operator : Operator
operator = record {
  session_id = 20;
  account_id = 10;
  username = "brad";
  role = owner;
  must_change_password = false;
  scope = full;
}

abbrev pub application : EnrollmentRequest
application = record {
  enrollment_password = "secret";
  rustdesk_id = "400500600";
  hostname = "host-4";
  friendly_name = none;
  contact_email = none;
  device_public_key = "key-4";
  reenrollment_poll_token = none;
}

abbrev requests : List (Context × Request)
requests =
    (ctx, approve operator 2 none none)
    ∷ (ctx, revoke operator 1 "lost")
    ∷ (ctx, enroll application)
    ∷ []

abbrev after : Db
after = run env requests db

pub db-Sound : Sound db
unfolding get_device find_where status_in
db-Sound = ((refl, (refl, (refl, tt))), ((λ _. refl), tt))

db-revoked : status_in db.devices 3 ≡ some revoked
unfolding status_in get_device find_where
db-revoked = refl

with_devices : List Device → Db
with_devices devices = record db { devices = devices }

pub db-Names : Names env db
unfolding name_at get_device name_taken reserves find_where with_devices
db-Names = (
  db-Sound.0,
  free_for_new env (with_devices (device_2 ∷ device_3 ∷ [])) device_1
      (free_for_new env (with_devices (device_3 ∷ [])) device_2
        (free_for_new env (with_devices []) device_3 (λ j k n a b. cc) refl) refl)
      refl,
)

device_1_row : get_device db.devices 1 ≡ some device_1
unfolding get_device find_where
device_1_row = refl

may_change : may_change_status db.accounts 10 ≡ true
unfolding may_change_status find_where
may_change = refl

device_2_row : get_device db.devices 2 ≡ some device_2
unfolding get_device find_where
device_2_row = refl

-- The same outside, but for its token: it is the one that the approval of device 2 signs.
abbrev reading : Env
reading = record env {
  decode_device = λ t now. some (record {
    sub = 2;
    serial = 8;
    rustdesk_id = "200300400";
    pkh = "key-1";
    instance_id = 900;
    kind = "device_credential";
    iat = 100;
    exp = none;
  });
}

new_lab_free :
    name_taken reading
      (coalesce (stripped reading (some "new lab")) (some "lab"))
      (some 2)
      db.devices
    ≡ false
unfolding stripped name_taken reserves find_where
new_lab_free = refl

accepts_1 : validate_device_credential env 100 "token-1" db ≡ some (device_1, credential_1)
unfolding validate_device_credential check_claims check_key accepts_device accepts_credential
    find_where
accepts_1 = refl

ten_failures : leb 10 (recent_failures ctx.source_ip ctx.now db.enrollment_events) ≡ true
unfolding recent_failures is_recent_failure count_where
ten_failures = refl

-- A poll for a device that does not exist changes nothing.
poll_unknown : run env ((ctx, poll 9 "token") ∷ []) db ≡ db
unfolding run handle commit enrollment_status polls find_where ◌>>=◌
poll_unknown = refl

-- The requests of the example have their effects: device 2 is approved, device 1 revoked, and the
-- enrollment without a secret adds no device.
requests_run : status_in after.devices 2 ≡ some approved
unfolding run handle commit approve_device revoke_device change_device_status apply_status
    update_status guard_managed_device_status mark_approved credential_of issue_credential
    insert_credential terminal_cleanup require_device_manager get_device_for_update
    ensure_friendly_name_available enroll_device enroll_applicant enroll_secret log_and_refuse
    write_audit write_enrollment_event sec8_enqueue queue_first_passport sec8_mode status_in
    get_device find_where update_where name_taken stripped decode_device_public_key
    normalize_contact_email recent_failures count_where active_device_credential latest_where
    may_change_status transition find_secret is_recent_failure ◌>>=◌
requests_run = refl

run-Sound_example : Sound after
run-Sound_example = run-Sound env requests db db-Sound

run-locked_out_example : ¬ (device_1.id ≡ 3)
run-locked_out_example =
    run-locked_out env ((ctx, poll 9 "token") ∷ []) db 3 db-Sound db-revoked 100 "token-1" device_1
      credential_1 (rw poll_unknown accepts_1)

validate-Genuine_example : Genuine env 100 "token-1" device_1 credential_1
validate-Genuine_example = validate-Genuine env 100 db "token-1" accepts_1

change_device_status-Closed_example :
    (t : Db) × (change_device_status env ctx 1 revoked "lost" 10 db
      ≡ done (accepted (record { device_id = 1; status = revoked })) t)
    × Closed 1 t
change_device_status-Closed_example =
    change_device_status-Closed env ctx revokes "lost" 10 db device_1 device_1_row refl may_change

enroll_device-Limited_example : Ends (TurnedAway ctx db) (enroll_device env ctx application db)
enroll_device-Limited_example = enroll_device-Limited env ctx application db ten_failures

approve_device-validates_example :
    (t : Db) × (approval : Approval) × (row : Device) × (c : Credential) × (approve_device reading
        ctx 2
        (some "new lab")
        none
        10
        db
      ≡ done (accepted approval) t)
    × (row.id ≡ 2)
    × (validate_device_credential reading 200 approval.credential t ≡ some (row, c))
approve_device-validates_example =
    approve_device-validates reading ctx (some "new lab") none 10 200 db device_2 db-Sound
      device_2_row refl may_change new_lab_free refl
