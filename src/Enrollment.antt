-- ===== src/Enrollment.antt =====
-- main.py `enroll_device` (POST /v1/enrollment/devices): its stages in the order of the code. The
-- events and the secrets stand in Enrollment/Attempts, the parts that the continuity endpoints share
-- in Enrollment/Identity and Enrollment/Readmit.
pub mod Inputs
pub mod Identity
pub mod Readmit
pub mod Attempts
pub mod Walk
pub mod Limits
pub mod Secrets
use rustdesk_managed_directo.Common.{
  ℕ, String, ◌+◌, ◌||◌, Option, none, some, List, [], ◌∷◌, str_eq, leb, if◌then◌else◌, coalesce,
  select,
}
use rustdesk_managed_directo.Http.{
  http, Tx, Reply, accepted, pure, gets, modify, raise_if, ◌>>=◌, ◌>>◌,
}
use rustdesk_managed_directo.Store.{
  Status, pending, approved, revoked, Device, Authorization, Secret, EnrollmentResult,
  accepted_pending, rejected_bad_secret, duplicate, Db, is_pending,
}
use rustdesk_managed_directo.Store.Env.{Env}
use rustdesk_managed_directo.Store.Triggers.{insert_device}
use rustdesk_managed_directo.Store.Queries.{
  stripped, ensure_friendly_name_available, poll_token_hash, write_enrollment_event, write_audit,
}
use rustdesk_managed_directo.Lifecycle.{Context}
use Inputs.{normalize_contact_email, decode_device_public_key}
use Identity.{
  Applicant, is_duplicate, find_exact, conflicts, live_authorization, continuity_authorization,
}
use Attempts.{
  max_failures_per_window, recent_failures, find_secret, rejection, use_secret, event,
  log_and_refuse, result_text,
}
use Readmit.{Admission, readmit, poll_seconds}

pub record EnrollmentRequest : Type 0 where
  pub enrollment_password : String
  pub rustdesk_id : String
  pub hostname : String
  pub friendly_name : Option String
  pub contact_email : Option String
  pub device_public_key : String
  pub reenrollment_poll_token : Option String

abbrev pub new_device : Env → Context → Applicant → Device
new_device env ctx a = record {
  id = ctx.fresh_id;
  rustdesk_id = a.rustdesk_id;
  hostname = a.hostname;
  friendly_name = a.friendly_name;
  contact_email = a.contact_email;
  device_public_key = a.device_public_key;
  status = pending;
  status_reason = none;
  status_changed_by = none;
  status_changed_at = none;
  last_ip = ctx.source_ip;
  last_seen_at = some ctx.now;
  poll_token_hash = some (poll_token_hash env ctx.fresh_token);
  poll_expires_at = some (ctx.now + poll_seconds);
  identity_public_key = none;
  key_protection = none;
  passport_serial = none;
}

-- The last stage for an identity that no device has.
unfoldable pub enroll_new : Env → Context → Applicant → Secret → Tx Db (Reply Admission)
enroll_new env ctx a secret = do
  ensure_friendly_name_available env a.friendly_name none
  insert_device (new_device env ctx a)
  modify (λ db. record db { secrets = use_secret secret.id db.secrets })
  write_enrollment_event (event ctx a (some ctx.fresh_id) (some secret.id) accepted_pending "")
  write_audit (record {
    event_type = "device.enrollment_pending";
    actor = none;
    target_id = some ctx.fresh_id;
    source_ip = ctx.source_ip;
    reason = "";
  })
  pure (
      accepted (record {
        device_id = ctx.fresh_id;
        poll_token = ctx.fresh_token;
        poll_expires_at = ctx.now + poll_seconds;
      }))

-- The last stage for a device whose recovery an Owner authorized.
unfoldable pub enroll_again :
    Env → Context → Applicant → Secret → Device → Authorization → Tx Db (Reply Admission)
enroll_again env ctx a secret device authorization = do
  ensure_friendly_name_available env (coalesce a.friendly_name device.friendly_name)
      (some device.id)
  admission ← readmit env ctx a device authorization (
      if is_pending device.status
      then "Owner-authorized Pending enrollment recovery: "
      else "Owner-authorized re-enrollment: ")
  modify (λ db. record db { secrets = use_secret secret.id db.secrets })
  write_enrollment_event (event ctx a (some device.id) (some secret.id) accepted_pending "")
  write_audit (record {
    event_type = "device.reenrollment_pending";
    actor = some authorization.requested_by;
    target_id = some device.id;
    source_ip = ctx.source_ip;
    reason = authorization.reason;
  })
  pure (accepted admission)

-- The authorization that `enroll_device` looks for: a pending device needs no poll token.
unfoldable pub authorization_for : Env → ℕ → Device → Option String → Db → Option Authorization
unfolding live_authorization continuity_authorization
authorization_for env now device token db =
    if is_pending device.status
    then live_authorization device.id now db
    else continuity_authorization env device.id now token db

enroll_authorized :
    Env → Context → Applicant → Secret → Device → Option Authorization → Tx Db (Reply Admission)
enroll_authorized env ctx a secret device (some authorization) =
    enroll_again env ctx a secret device authorization
enroll_authorized env ctx a secret device none =
    if is_pending device.status
    then log_and_refuse
        (event ctx a (some device.id) (some secret.id) duplicate
          "pending_recovery_authorization_required")
        409 "Owner Pending enrollment recovery authorization is required"
    else log_and_refuse
        (event ctx a (some device.id) (some secret.id) duplicate
          "reenrollment_authorization_required")
        409 "Owner re-enrollment authorization and the device's prior poll token are required"

-- The stage of a device that is already known, by its status.
enroll_known :
    Env → Context → Applicant → Secret → Device → Status → Option String → Tx Db (Reply Admission)
enroll_known env ctx a secret device approved token =
    log_and_refuse (event ctx a (some device.id) (some secret.id) duplicate "already_enrolled") 409
      "This device is already enrolled; use its original poll token"
enroll_known env ctx a secret device revoked token =
    log_and_refuse (event ctx a (some device.id) (some secret.id) duplicate "revoked_terminal") 409
      "Revoked clients are terminal and cannot be re-enrolled; a fresh install is required"
enroll_known env ctx a secret device _ token = do
  authorization ← gets (authorization_for env ctx.now device token)
  enroll_authorized env ctx a secret device authorization

-- The stage behind the query for rows with the same RustDesk ID or the same key.
enroll_identified :
    Env
    → Context
    → Applicant
    → Secret
    → Option String
    → Option Device
    → List Device
    → Tx Db (Reply Admission)
enroll_identified env ctx a secret token exact [] = enroll_new env ctx a secret
enroll_identified env ctx a secret token none (d ∷ duplicates) =
    log_and_refuse (event ctx a none (some secret.id) duplicate "identity_conflict") 409
      "RustDesk ID or device public key already belongs to another device"
enroll_identified env ctx a secret token (some device) (d ∷ duplicates) =
    if conflicts device (d ∷ duplicates)
    then log_and_refuse
        (event ctx a (some device.id) (some secret.id) duplicate "identity_conflict") 409
        "RustDesk ID or device public key already belongs to another device"
    else enroll_known env ctx a secret device device.status token

-- The stage behind the enrollment secret.
unfoldable pub enroll_identity :
    Env → Context → Applicant → Secret → Option String → Tx Db (Reply Admission)
unfolding enroll_identified enroll_known enroll_authorized
enroll_identity env ctx a secret token = do
  duplicates ← gets (λ db. select (is_duplicate a) db.devices)
  enroll_identified env ctx a secret token (find_exact a duplicates) duplicates

enroll_with :
    Env
    → Context
    → Applicant
    → Option String
    → Secret
    → Option (EnrollmentResult × String)
    → Tx Db (Reply Admission)
enroll_with env ctx a token secret (some (result, detail)) =
    log_and_refuse (event ctx a none (some secret.id) result (result_text result)) 403 detail
enroll_with env ctx a token secret none = enroll_identity env ctx a secret token

unfoldable pub enroll_secret :
    Env → Context → Applicant → Option String → Option Secret → Tx Db (Reply Admission)
unfolding enroll_with
enroll_secret env ctx a token none =
    log_and_refuse (event ctx a none none rejected_bad_secret "invalid_enrollment_password") 401
      "Invalid enrollment password"
enroll_secret env ctx a token (some secret) =
    enroll_with env ctx a token secret (rejection secret ctx.now)

-- The transaction behind the reading of the payload.
unfoldable pub enroll_applicant :
    Env → Context → Applicant → String → Option String → Tx Db (Reply Admission)
enroll_applicant env ctx a password token = do
  failures ← gets (λ db. recent_failures ctx.source_ip ctx.now db.enrollment_events)
  secret ← gets (λ db. find_secret env password db.secrets)
  if leb max_failures_per_window failures
      then log_and_refuse (event ctx a none none rejected_bad_secret "rate_limited") 429
          "Too many failed enrollment attempts from this address - try again later"
      else enroll_secret env ctx a token secret

unfoldable pub enroll_device : Env → Context → EnrollmentRequest → Tx Db (Reply Admission)
enroll_device env ctx r = do
  contact_email ← normalize_contact_email env r.contact_email
  raise_if (str_eq (env.strip r.rustdesk_id) "" || str_eq (env.strip r.hostname) "")
      (http 422 "rustdesk_id and hostname cannot be blank")
  key ← decode_device_public_key env r.device_public_key
  enroll_applicant env ctx
      (record {
        rustdesk_id = env.strip r.rustdesk_id;
        hostname = env.strip r.hostname;
        friendly_name = stripped env r.friendly_name;
        contact_email = contact_email;
        device_public_key = key;
      })
      r.enrollment_password r.reenrollment_poll_token
