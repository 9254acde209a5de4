-- ===== src/Tests/Recovery.antt =====
-- A blocked device that an Owner let come back, and its re-enrollment.
use rustdesk_managed_directo.Common.{none, some, [], ◌∷◌}
use rustdesk_managed_directo.Http.Keeps.{Ends}
use rustdesk_managed_directo.Store.{blocked, Device, Authorization, Db}
use rustdesk_managed_directo.Recovery.{RecoveryRequest, complete_device_reenrollment}
use rustdesk_managed_directo.Recovery.Authorized.{Spent, complete_device_reenrollment-Spent}
use rustdesk_managed_directo.Tests.{env, device, ctx, db}

abbrev device_5 : Device
device_5 = record (device 5 "500600700" (some "porch") blocked) {
  poll_token_hash = some "enrollment-poll:token-5";
  poll_expires_at = some 500;
}

abbrev authorization : Authorization
authorization = record {
  id = 40;
  device_id = 5;
  requested_by = 10;
  reason = "new disk";
  created_at = 80;
  expires_at = 200;
  consumed_at = none;
  revoked_at = none;
}

abbrev with_blocked : Db
with_blocked = record db {
  devices = device_5 ∷ [];
  authorizations = authorization ∷ [];
  credentials = [];
}

abbrev return_5 : RecoveryRequest
return_5 = record {
  device_id = 5;
  poll_token = "token-5";
  rustdesk_id = "500600700";
  hostname = "host-5";
  friendly_name = none;
  contact_email = none;
  device_public_key = "key-5";
}

complete_device_reenrollment-Spent_example :
    Ends
      (λ _ t. Spent with_blocked 5 100 t)
      (complete_device_reenrollment env ctx return_5 with_blocked)
complete_device_reenrollment-Spent_example =
    complete_device_reenrollment-Spent env ctx return_5 with_blocked
