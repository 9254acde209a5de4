-- ===== src/Enrollment/Readmit.antt =====
-- The statements that return a device to Pending Approval: the same in main.py `enroll_device` and
-- `complete_device_reenrollment`.
use rustdesk_managed_directo.Common.{ℕ, String, ◌+◌, ◌<>◌, some, List, ◌==◌, coalesce, update_where}
use rustdesk_managed_directo.Http.{Tx, modify, pure, ◌>>◌}
use rustdesk_managed_directo.Store.{pending, Device, Authorization, Recovery, Db}
use rustdesk_managed_directo.Store.Env.{Env}
use rustdesk_managed_directo.Store.Triggers.{revoke_credentials, update_status}
use rustdesk_managed_directo.Store.Queries.{poll_token_hash}
use rustdesk_managed_directo.Lifecycle.{Context, revoke_leases, is_open_recovery}
use rustdesk_managed_directo.Enrollment.Identity.{Applicant}

-- ENROLLMENT_POLL_DAYS
abbrev pub poll_seconds : ℕ
poll_seconds = 7776000

-- What an accepted enrollment answers.
pub record Admission : Type 0 where
  pub device_id : ℕ
  pub poll_token : String
  pub poll_expires_at : ℕ

unfoldable pub consume_authorization : ℕ → ℕ → List Authorization → List Authorization
consume_authorization id now authorizations =
    update_where (λ a. a.id == id) (λ a. record a { consumed_at = some now }) authorizations

unfoldable pub fulfil_recoveries : ℕ → ℕ → List Recovery → List Recovery
fulfil_recoveries device_id now recoveries =
    update_where (is_open_recovery device_id) (λ r. record r { fulfilled_at = some now }) recoveries

-- What the UPDATE of managed_devices sets besides the status.
unfoldable pub readmitted : Env → Context → Applicant → Device → Device
readmitted env ctx a d = record d {
  hostname = a.hostname;
  friendly_name = coalesce a.friendly_name d.friendly_name;
  contact_email = coalesce a.contact_email d.contact_email;
  device_public_key = a.device_public_key;
  last_ip = ctx.source_ip;
  last_seen_at = some ctx.now;
  poll_token_hash = some (poll_token_hash env ctx.fresh_token);
  poll_expires_at = some (ctx.now + poll_seconds);
}

-- Every old credential and relay lease is revoked before the device returns to Pending Approval,
-- and the authorization is consumed.
unfoldable pub readmit :
    Env → Context → Applicant → Device → Authorization → String → Tx Db Admission
readmit env ctx a device authorization prefix = do
  modify (λ db. record db {
    credentials =
        revoke_credentials device.id ctx.now authorization.requested_by
          "Superseded by Owner-authorized re-enrollment" db.credentials;
    leases = revoke_leases device.id ctx.now db.leases;
  })
  update_status device.id ctx.now device.status pending (prefix <> authorization.reason)
      authorization.requested_by (readmitted env ctx a)
  modify (λ db. record db {
    authorizations = consume_authorization authorization.id ctx.now db.authorizations;
    recoveries = fulfil_recoveries device.id ctx.now db.recoveries;
  })
  pure (record {
    device_id = device.id;
    poll_token = ctx.fresh_token;
    poll_expires_at = ctx.now + poll_seconds;
  })
