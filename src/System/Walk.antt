-- ===== src/System/Walk.antt =====
-- One request, followed once for every proof about runs.
use rustdesk_managed_directo.Http.{Reply, Outcome, done, raised, Tx, commit, refused}
use rustdesk_managed_directo.Http.Keeps.{Ends, Hoare, Keeps, Hoare-bind, Keeps-raise_if}
use rustdesk_managed_directo.Store.{Db}
use rustdesk_managed_directo.Store.Env.{Env}
use rustdesk_managed_directo.Store.Phases.{Phases}
use rustdesk_managed_directo.Operators.Gates.{Operator, enforce_owner, require_device_manager}
use rustdesk_managed_directo.Lifecycle.{Context, deny_device, block_device, revoke_device}
use rustdesk_managed_directo.Lifecycle.Walk.{
  approve_device-walk, change_device_status-walk, to_denied, to_blocked, to_revoked,
}
use rustdesk_managed_directo.Enrollment.Walk.{enroll_device-walk}
use rustdesk_managed_directo.Recovery.Walk.{
  authorize-walk, request-walk, complete-walk, status-walk,
}
use rustdesk_managed_directo.Devices.Walk.{Keeps-require_device, lease-walk}
use rustdesk_managed_directo.System.{
  Request, enroll, poll, request_recovery, complete_recovery, approve, deny, block, revoke,
  authorize, lease, handle,
}

Keeps-manager : (P : Db → Type 0) (o : Operator) → Keeps P (require_device_manager o)
unfolding require_device_manager
Keeps-manager P o = Keeps-raise_if _ _

Keeps-owner : (P : Db → Type 0) (o : Operator) → Keeps P (enforce_owner o)
unfolding enforce_owner
Keeps-owner P o = Keeps-raise_if _ _

module _ {env : Env} {Pre Post : Db → Type 0} (ph : Phases env Pre Post) where
  commit-walk :
      {A : Type 0} (m : Tx Db (Reply A))
      → Hoare Pre m (λ _ t. Post t)
      → (s : Db) → Pre s
      → Post (commit m s).1
  unfolding commit
  commit-walk {A} m k s p = go (m s) (k.at s p)
    where
      go :
          (o : Outcome Db (Reply A))
          → Ends (λ _ t. Post t) o
          → Post (
              let r : Reply A × Db = elim o [
                | done reply t ↦ (reply, t)
                | raised e ↦ (refused e, s)
              ] in
              r.1)
      go (done r t) h = h
      go (raised e) h = ph.weaken s p

  pub handle-walk : (ctx : Context) (r : Request) (s : Db) → Pre s → Post (handle env ctx r s)
  unfolding handle deny_device block_device revoke_device
  handle-walk ctx (enroll r) = commit-walk _ (enroll_device-walk ph ctx r)
  handle-walk ctx (poll id token) = commit-walk _ (status-walk ph ctx id token)
  handle-walk ctx (request_recovery id token) = commit-walk _ (request-walk ph ctx id token)
  handle-walk ctx (complete_recovery r) = commit-walk _ (complete-walk ph ctx r)
  handle-walk ctx (approve o id name reason) = commit-walk _ (
      Hoare-bind _ _ (Keeps-manager Pre o)
        λ _. approve_device-walk ph ctx id name reason o.account_id)
  handle-walk ctx (deny o id reason) = commit-walk _ (
      Hoare-bind _ _ (Keeps-manager Pre o)
        λ _. change_device_status-walk ph to_denied ctx id _ o.account_id)
  handle-walk ctx (block o id reason) = commit-walk _ (
      Hoare-bind _ _ (Keeps-manager Pre o)
        λ _. change_device_status-walk ph to_blocked ctx id _ o.account_id)
  handle-walk ctx (revoke o id reason) = commit-walk _ (
      Hoare-bind _ _ (Keeps-manager Pre o)
        λ _. change_device_status-walk ph to_revoked ctx id _ o.account_id)
  handle-walk ctx (authorize o id reason minutes) =
      commit-walk _ (
        Hoare-bind _ _ (Keeps-owner Pre o)
          λ _. authorize-walk ph ctx id reason minutes o.account_id)
  handle-walk ctx (lease credential) =
      commit-walk _ (
        Hoare-bind _ _ (Keeps-require_device Pre env ctx.now credential) λ dc. lease-walk ph ctx dc)
