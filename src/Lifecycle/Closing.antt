-- ===== src/Lifecycle/Closing.antt =====
-- What blocking and revoking an approved device close, and what a repeated request does.
use rustdesk_managed_directo.Common.{
  ℕ, String, ◌≡◌, refl, Bool, true, false, ◌&&◌, some, List, ◌==◌, arith, is_null, update_where,
  All, All-intro, All-update_where,
}
use rustdesk_managed_directo.Http.{accepted, done, ◌>>=◌}
use rustdesk_managed_directo.Store.{Status, approved, blocked, revoked, Device, Credential, Db}
use rustdesk_managed_directo.Store.Env.{Env}
use rustdesk_managed_directo.Store.Queries.{
  get_device, get_device_for_update, write_audit, sec8_enqueue,
}
use rustdesk_managed_directo.Store.Triggers.{
  may_change_status, revoke_credentials, trigger_revokes, update_status,
}
use rustdesk_managed_directo.Lifecycle.{
  Context, proceed, verdict, change_device_status, transition, apply_status, terminal_cleanup,
  revoke_leases, revoke_authorizations, is_open_authorization, cancel_recoveries, is_open_recovery,
}

-- Nothing of the device is open any more: credentials, relay leases, re-enrollment authorizations
-- and requests.
pub record Closed (id : ℕ) (db : Db) : Type 0 where
  pub credentials : All (λ c. (c.device_id == id && is_null c.revoked_at) ≡ false) db.credentials
  pub leases : All (λ l. (l.device_id == id && is_null l.revoked_at) ≡ false) db.leases
  pub authorizations : All (λ a. is_open_authorization id a ≡ false) db.authorizations
  pub recoveries : All (λ r. is_open_recovery id r ≡ false) db.recoveries

-- After UPDATE … SET f WHERE p no row satisfies p, if f makes it false.
update_where-none {ℓ} :
    {A : Type ℓ} (p : A → Bool) (f : A → A)
    → ((x : A) → p (f x) ≡ false)
    → (xs : List A) → All (λ x. p x ≡ false) (update_where p f xs)
update_where-none p f h xs =
    All-update_where {P = λ _. Unit} p f (λ x _ _. h x) (λ x _ e. e) xs (All-intro _ (λ _. tt) xs)

module _ (env : Env) (id now actor : ℕ) (db : Db) where
  terminal_cleanup-Closed : Closed id (terminal_cleanup env id now actor db)
  unfolding terminal_cleanup revoke_credentials revoke_leases revoke_authorizations
      cancel_recoveries is_open_authorization is_open_recovery
  terminal_cleanup-Closed = record {
    credentials = update_where-none _ _ (λ c. ground arith) db.credentials;
    leases = update_where-none _ _ (λ l. ground arith) db.leases;
    authorizations = update_where-none _ _ (λ a. ground arith) db.authorizations;
    recoveries = update_where-none _ _ (λ r. ground arith) db.recoveries;
  }

revokes_closed :
    (id now actor : ℕ) (reason : String) (cs : List Credential)
    → All (λ c. (c.device_id == id && is_null c.revoked_at) ≡ false) cs
    → All
        (λ c. (c.device_id == id && is_null c.revoked_at) ≡ false)
        (trigger_revokes id now actor reason cs)
unfolding trigger_revokes
revokes_closed id now actor reason cs h = update_where-none _ _ (λ c. ground arith) cs

-- The routes whose statuses close a device.
pub data Closes : Status → Type 0 where
  blocks : Closes blocked
  revokes : Closes revoked

module _ (env : Env) (ctx : Context) (actor : ℕ) (d : Device) where
  apply_status-Closed :
      {new : Status} (k : Closes new) (reason : String) (db : Db)
      → d.status ≡ approved
      → may_change_status db.accounts actor ≡ true
      → (t : Db) × (apply_status env ctx d new reason actor db
          ≡ done (accepted (record { device_id = d.id; status = new })) t)
        × Closed d.id t
  unfolding apply_status update_status write_audit sec8_enqueue ◌>>=◌ terminal_cleanup
  apply_status-Closed blocks reason db was may =
      let c = terminal_cleanup-Closed env d.id ctx.now actor db in
      rw (was, may)
        (
          _,
          refl,
          record {
            credentials = revokes_closed d.id ctx.now actor _ _ c.credentials;
            leases = c.leases;
            authorizations = c.authorizations;
            recoveries = c.recoveries;
          },
        )
  apply_status-Closed revokes reason db was may =
      let c = terminal_cleanup-Closed env d.id ctx.now actor db in
      rw (was, may)
        (
          _,
          refl,
          record {
            credentials = revokes_closed d.id ctx.now actor _ _ c.credentials;
            leases = c.leases;
            authorizations = c.authorizations;
            recoveries = c.recoveries;
          },
        )

transition-Closes : {new : Status} → Closes new → transition new approved ≡ proceed
unfolding transition
transition-Closes blocks = refl
transition-Closes revokes = refl

-- Blocking or revoking an approved device, by an account that may change statuses, answers the new
-- status and leaves nothing of the device open.
pub change_device_status-Closed :
    (env : Env) (ctx : Context) {new : Status} (k : Closes new) (reason : String) (actor : ℕ)
    (db : Db) (d : Device)
    → get_device db.devices d.id ≡ some d
    → d.status ≡ approved
    → may_change_status db.accounts actor ≡ true
    → (t : Db) × (change_device_status env ctx d.id new reason actor db
        ≡ done (accepted (record { device_id = d.id; status = new })) t)
      × Closed d.id t
unfolding change_device_status get_device_for_update ◌>>=◌ verdict
change_device_status-Closed env ctx {new} k reason actor db d row was may =
    let goes_on : transition new d.status ≡ proceed = rw was (transition-Closes k) in
    rw (row, goes_on) (apply_status-Closed env ctx actor d k reason db was may)
