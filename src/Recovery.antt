-- ===== src/Recovery.antt =====
-- Re-enrollment with continuity: security_extension.py `authorize_device_reenrollment` and main.py
-- `request_device_reenrollment`, `complete_device_reenrollment`, `enrollment_status`.
pub mod Walk
pub mod Authorized
use rustdesk_managed_directo.Common.{
  ℕ, String, ◌+◌, ◌*◌, Bool, not, ◌&&◌, ◌||◌, Option, none, some, List, ◌∷◌, ◌==◌, str_eq, leb,
  if◌then◌else◌, is_null, coalesce, same_text, after_now, update_where, find_where,
}
use rustdesk_managed_directo.Http.{
  http, unauthorized, Tx, Reply, accepted, pure, gets, modify, raise_if, ◌>>=◌, ◌>>◌,
}
use rustdesk_managed_directo.Store.{
  Status, Device, Credential, Authorization, Recovery, accepted_pending, Db, is_pending,
  is_approved, is_revoked, is_recoverable,
}
use rustdesk_managed_directo.Store.Env.{Env}
use rustdesk_managed_directo.Store.Queries.{
  found, stripped, ensure_friendly_name_available, get_device_for_update, is_active_credential,
  poll_token_hash, write_enrollment_event, write_audit,
}
use rustdesk_managed_directo.Lifecycle.{
  Context, sign_device_credential, revoke_authorizations, is_open_recovery,
}
use rustdesk_managed_directo.Enrollment.Attempts.{event}
use rustdesk_managed_directo.Enrollment.Inputs.{normalize_contact_email, decode_device_public_key}
use rustdesk_managed_directo.Enrollment.Identity.{
  Applicant, is_live_authorization, live_authorization, active_request,
}
use rustdesk_managed_directo.Enrollment.Readmit.{Admission, readmit, poll_seconds}

-- `authorize_device_reenrollment`: the statements that change the tables.
unfoldable pub grant_authorization : Context → Device → String → ℕ → ℕ → Db → Db
grant_authorization ctx device reason minutes actor db = record db {
  devices =
      if not (is_pending device.status)
      then update_where (λ d. d.id == device.id && not (is_null d.poll_token_hash))
          (λ d. record d { poll_expires_at = some (ctx.now + poll_seconds) }) db.devices
      else db.devices;
  authorizations =
      record {
        id = ctx.fresh_id;
        device_id = device.id;
        requested_by = actor;
        reason = reason;
        created_at = ctx.now;
        expires_at = ctx.now + minutes * 60;
        consumed_at = none;
        revoked_at = none;
      }
      ∷ revoke_authorizations device.id ctx.now db.authorizations;
}

unfoldable pub authorize_device_reenrollment :
    Env → Context → ℕ → String → ℕ → ℕ → Tx Db (Reply Bool)
authorize_device_reenrollment env ctx device_id reason minutes actor = do
  device ← get_device_for_update device_id
  raise_if (is_revoked device.status)
      (http 409 "Revoked clients are terminal and cannot be reauthorized or re-enrolled")
  raise_if (is_approved device.status) (
      http 409
        "Enrollment recovery authorization is only available for pending, denied, or blocked devices")
  modify (grant_authorization ctx device (env.strip reason) minutes actor)
  write_audit (record {
    event_type = "device.reenrollment_authorized";
    actor = some actor;
    target_id = some device_id;
    source_ip = ctx.source_ip;
    reason = env.strip reason;
  })
  pure (accepted (not (is_pending device.status)))

-- WHERE id = … AND enrollment_poll_token_hash = … AND enrollment_poll_expires_at > …
unfoldable pub polls : Env → ℕ → String → ℕ → Device → Bool
polls env device_id token now d =
    d.id == device_id
    && same_text d.poll_token_hash (poll_token_hash env token)
    && after_now d.poll_expires_at now

-- The same, with status IN ('denied', 'blocked').
unfoldable pub recovers : Env → ℕ → String → ℕ → Device → Bool
unfolding polls
recovers env device_id token now d = polls env device_id token now d && is_recoverable d.status

unfoldable pub recovering_device : Env → ℕ → String → ℕ → Tx Db Device
unfolding recovers
recovering_device env device_id token now db =
    found (find_where (recovers env device_id token now) db.devices) unauthorized db

-- last_ip, last_seen_at, enrollment_poll_expires_at
unfoldable pub touch : Context → ℕ → ℕ → Db → Db
touch ctx device_id poll_expires_at db = record db {
  devices =
      update_where (λ d. d.id == device_id)
        (λ d. record d {
          last_ip = ctx.source_ip;
          last_seen_at = some ctx.now;
          poll_expires_at = some poll_expires_at;
        })
        db.devices;
}

-- Cancels the open request of the device if it has expired.
unfoldable pub cancel_expired : ℕ → ℕ → List Recovery → List Recovery
cancel_expired device_id now recoveries =
    update_where (λ r. is_open_recovery device_id r && leb r.expires_at now)
      (λ r. record r { cancelled_at = some now }) recoveries

open_request : Context → Device → Option Recovery → Tx Db (Reply (ℕ × ℕ))
open_request ctx device (some r) = pure (accepted (r.id, r.expires_at))
open_request ctx device none = do
  modify (λ db. record db {
    recoveries =
        record {
          id = ctx.fresh_id;
          device_id = device.id;
          requested_at = ctx.now;
          expires_at = ctx.now + 86400;
          fulfilled_at = none;
          cancelled_at = none;
        }
        ∷ db.recoveries;
  })
  write_audit (record {
    event_type = "device.reenrollment_requested";
    actor = none;
    target_id = some device.id;
    source_ip = ctx.source_ip;
    reason = "";
  })
  pure (accepted (ctx.fresh_id, ctx.now + 86400))

-- Answers the id and the end of the open request.
unfoldable pub request_device_reenrollment : Env → Context → ℕ → String → Tx Db (Reply (ℕ × ℕ))
unfolding open_request
request_device_reenrollment env ctx device_id token = do
  device ← recovering_device env device_id token ctx.now
  modify (touch ctx device.id (ctx.now + poll_seconds))
  modify (λ db. record db { recoveries = cancel_expired device.id ctx.now db.recoveries })
  request ← gets (λ db. active_request device.id ctx.now db.recoveries)
  open_request ctx device request

pub record RecoveryRequest : Type 0 where
  pub device_id : ℕ
  pub poll_token : String
  pub rustdesk_id : String
  pub hostname : String
  pub friendly_name : Option String
  pub contact_email : Option String
  pub device_public_key : String

-- Another device has the key.
unfoldable pub key_taken : String → ℕ → List Device → Bool
key_taken key device_id devices =
    not (
      is_null (find_where (λ d. str_eq d.device_public_key key && not (d.id == device_id)) devices))

-- The statements behind the checks of `complete_device_reenrollment`.
unfoldable pub recover :
    Env → Context → Applicant → Device → Authorization → Tx Db (Reply Admission)
recover env ctx a device authorization = do
  ensure_friendly_name_available env (coalesce a.friendly_name device.friendly_name)
      (some device.id)
  admission ← readmit env ctx a device authorization "Owner-authorized managed re-enrollment: "
  write_enrollment_event (event ctx a (some device.id) none accepted_pending "")
  write_audit (record {
    event_type = "device.reenrollment_pending";
    actor = some authorization.requested_by;
    target_id = some device.id;
    source_ip = ctx.source_ip;
    reason = "";
  })
  pure (accepted admission)

-- The second look at the authorization, FOR UPDATE.
unfoldable pub lock_authorization : ℕ → ℕ → Authorization → Tx Db Authorization
lock_authorization device_id now a db =
    found
      (find_where (λ b. b.id == a.id && is_live_authorization device_id now db.accounts b)
        db.authorizations)
      (http 409 "Owner re-enrollment authorization is no longer valid") db

unfoldable pub require_authorization : ℕ → ℕ → Tx Db Authorization
require_authorization device_id now db =
    found (live_authorization device_id now db)
      (http 409 "Owner re-enrollment authorization is required") db

unfoldable pub complete_device_reenrollment :
    Env → Context → RecoveryRequest → Tx Db (Reply Admission)
complete_device_reenrollment env ctx r = do
  contact_email ← normalize_contact_email env r.contact_email
  key ← decode_device_public_key env r.device_public_key
  device ← recovering_device env r.device_id r.poll_token ctx.now
  raise_if (not (str_eq device.rustdesk_id (env.strip r.rustdesk_id)))
      (http 409 "Re-enrollment RustDesk ID does not match managed device")
  taken ← gets (λ db. key_taken key device.id db.devices)
  raise_if taken (http 409 "Device public key belongs to another managed device")
  seen ← require_authorization device.id ctx.now
  authorization ← lock_authorization device.id ctx.now seen
  recover env ctx
      (record {
        rustdesk_id = env.strip r.rustdesk_id;
        hostname = env.strip r.hostname;
        friendly_name = stripped env r.friendly_name;
        contact_email = contact_email;
        device_public_key = key;
      })
      device authorization

pub record PollReply : Type 0 where
  pub status : Status
  pub poll_expires_at : Option ℕ
  pub poll_after_seconds : ℕ
  pub requested : Bool
  pub authorized : Bool
  pub credential : Option String

-- The credential that an approved device is handed, if it has an active one.
abbrev poll_credential : Env → ℕ → Device → List Credential → ℕ → Option String
poll_credential env now d credentials instance_id =
    if is_approved d.status
    then (elim (find_where (is_active_credential d.id now) credentials) [
      | none ↦ none
      | some c ↦ some (sign_device_credential env d c instance_id)
    ])
    else none

-- `enrollment_status`
unfoldable pub enrollment_status : Env → Context → ℕ → String → Tx Db (Reply PollReply)
enrollment_status env ctx device_id token = do
  device ← (λ db. found (find_where (polls env device_id token ctx.now) db.devices) unauthorized db)
  modify (λ db.
      if is_approved device.status then db else touch ctx device.id (ctx.now + poll_seconds) db)
  request ← gets (λ db. active_request device.id ctx.now db.recoveries)
  authorization ← gets (live_authorization device.id ctx.now)
  credential ← gets (λ db. poll_credential env ctx.now device db.credentials db.instance_id)
  pure (
      accepted (record {
        status = device.status;
        poll_expires_at =
            if is_approved device.status
            then device.poll_expires_at
            else some (ctx.now + poll_seconds);
        poll_after_seconds =
            if is_recoverable device.status || is_revoked device.status then 15 else 10;
        requested = is_recoverable device.status && not (is_null request);
        authorized = is_recoverable device.status && not (is_null authorization);
        credential = credential;
      }))
