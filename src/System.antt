-- ===== src/System.antt =====
-- Requests about a device's standing: one operation for each, and runs of them. Every handler is one
-- transaction, so a run is a sequence. An operator's request starts from the row that `require_operator`
-- returned in a transaction of its own; Upkeep has that transaction, the heartbeat and the deletion of a
-- device as further actions.
pub mod Walk
pub mod Sound
pub mod Moves
pub mod Access
pub mod Names
pub mod RoundTrip
use rustdesk_managed_directo.Common.{ℕ, String, Option, List, [], ◌∷◌}
use rustdesk_managed_directo.Http.{commit, ◌>>=◌, ◌>>◌}
use rustdesk_managed_directo.Store.{Db}
use rustdesk_managed_directo.Store.Env.{Env}
use rustdesk_managed_directo.Operators.Gates.{Operator, enforce_owner, require_device_manager}
use rustdesk_managed_directo.Lifecycle.{
  Context, approve_device, deny_device, block_device, revoke_device,
}
use rustdesk_managed_directo.Enrollment.{EnrollmentRequest, enroll_device}
use rustdesk_managed_directo.Recovery.{
  RecoveryRequest, authorize_device_reenrollment, request_device_reenrollment,
  complete_device_reenrollment, enrollment_status,
}
use rustdesk_managed_directo.Devices.{require_device, device_relay_lease}

pub data Request : Type 0 where
  enroll : EnrollmentRequest → Request
  poll : ℕ → String → Request
  request_recovery : ℕ → String → Request
  complete_recovery : RecoveryRequest → Request
  approve : Operator → ℕ → Option String → Option String → Request
  deny : Operator → ℕ → String → Request
  block : Operator → ℕ → String → Request
  revoke : Operator → ℕ → String → Request
  authorize : Operator → ℕ → String → ℕ → Request
  lease : Option String → Request

-- The tables after a request, accepted, refused or rolled back.
unfoldable pub handle : Env → Context → Request → Db → Db
handle env ctx (enroll r) db = (commit (enroll_device env ctx r) db).1
handle env ctx (poll id token) db = (commit (enrollment_status env ctx id token) db).1
handle env ctx (request_recovery id token) db =
    (commit (request_device_reenrollment env ctx id token) db).1
handle env ctx (complete_recovery r) db = (commit (complete_device_reenrollment env ctx r) db).1
handle env ctx (approve o id name reason) db =
    (commit (require_device_manager o >> approve_device env ctx id name reason o.account_id) db).1
handle env ctx (deny o id reason) db =
    (commit (require_device_manager o >> deny_device env ctx id reason o.account_id) db).1
handle env ctx (block o id reason) db =
    (commit (require_device_manager o >> block_device env ctx id reason o.account_id) db).1
handle env ctx (revoke o id reason) db =
    (commit (require_device_manager o >> revoke_device env ctx id reason o.account_id) db).1
handle env ctx (authorize o id reason minutes) db =
    (commit
      (enforce_owner o >> authorize_device_reenrollment env ctx id reason minutes o.account_id)
      db).1
handle env ctx (lease credential) db =
    (commit (do device ← require_device env ctx.now credential; device_relay_lease env ctx device)
      db).1

unfoldable pub run : Env → List (Context × Request) → Db → Db
run env [] db = db
run env ((ctx, request) ∷ rest) db = run env rest (handle env ctx request db)
