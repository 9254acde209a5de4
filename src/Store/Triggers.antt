-- ===== src/Store/Triggers.antt =====
-- The triggers of migrations/011 and 022 on device statuses and credentials, and the statements
-- that fire them.
use rustdesk_managed_directo.Common.{
  ℕ, String, ◌<>◌, Bool, true, false, not, ◌&&◌, Option, none, some, List, ◌∷◌, ◌==◌, str_eq,
  if◌then◌else◌, is_null, coalesce, update_where, find_where,
}
use rustdesk_managed_directo.Http.{Tx, done, raised, modify, internal_error, ◌>>◌}
use rustdesk_managed_directo.Store.{
  Status, pending, approved, denied, blocked, revoked, Device, Credential, Account, Db, is_approved,
  manages_devices,
}

-- `NEW.status IS DISTINCT FROM OLD.status`
abbrev pub same_status : Status → Status → Bool
same_status pending pending = true
same_status approved approved = true
same_status denied denied = true
same_status blocked blocked = true
same_status revoked revoked = true
same_status _ _ = false

abbrev pub status_text : Status → String
status_text pending = "pending"
status_text approved = "approved"
status_text denied = "denied"
status_text blocked = "blocked"
status_text revoked = "revoked"

-- The actor of a status change: `NEW.status_changed_by`, an active Owner or Manager account.
unfoldable pub may_change_status : List Account → ℕ → Bool
may_change_status accounts actor = elim (find_where (λ a. a.id == actor) accounts) [
  | none ↦ false
  | some a ↦ a.is_active && manages_devices a.role
]

-- UPDATE device_credentials SET revoked_at …, revoked_by …, revocation_reason … for one device.
unfoldable pub revoke_credentials : ℕ → ℕ → ℕ → String → List Credential → List Credential
revoke_credentials device_id now actor reason =
    update_where (λ c. c.device_id == device_id && is_null c.revoked_at)
      (λ c. record c {
        revoked_at = some now;
        revoked_by = coalesce c.revoked_by (some actor);
        revocation_reason = coalesce c.revocation_reason (some reason);
      })

-- The trigger's own UPDATE, which overwrites the reason.
unfoldable pub trigger_revokes : ℕ → ℕ → ℕ → String → List Credential → List Credential
trigger_revokes device_id now actor reason =
    update_where (λ c. c.device_id == device_id && is_null c.revoked_at)
      (λ c. record c {
        revoked_at = some now;
        revoked_by = some actor;
        revocation_reason = some reason;
      })

-- COALESCE(NULLIF(NEW.status_reason, ''), 'Automatically revoked …')
abbrev trigger_reason : String → Status → String
trigger_reason reason to =
    if str_eq reason ""
    then "Automatically revoked because device status changed to " <> status_text to
    else reason

-- The body of `guard_managed_device_status` for one row whose status is set, together with the row
-- that `record_managed_device_status` appends.
unfoldable pub guard_managed_device_status : ℕ → ℕ → Status → Status → String → ℕ → Tx Db (Unit {0})
unfolding trigger_revokes may_change_status
guard_managed_device_status device_id now from to reason actor db =
    if same_status from to
    then done tt db
    else if not (may_change_status db.accounts actor)
    then raised (internal_error "Only active Owner or Manager accounts may change device status")
    else done tt (record db {
      credentials =
          if is_approved from && not (is_approved to)
          then trigger_revokes device_id now actor (trigger_reason reason to) db.credentials
          else db.credentials;
      history =
          record {
            device_id = device_id;
            from_status = some from;
            to_status = to;
            changed_by = some actor;
          }
          ∷ db.history;
    })

-- UPDATE managed_devices SET status = …, status_reason = …, status_changed_by = …, and what else
-- the statement sets, `change`, WHERE id = …. `from` is the status of the locked row.
unfoldable pub update_status :
    ℕ → ℕ → Status → Status → String → ℕ → (Device → Device) → Tx Db (Unit {0})
unfolding guard_managed_device_status
update_status device_id now from to reason actor change = do
  guard_managed_device_status device_id now from to reason actor
  modify (λ db. record db {
    devices =
        update_where (λ d. d.id == device_id)
          (λ d. record (change d) {
            status = to;
            status_reason = some reason;
            status_changed_by = some actor;
            status_changed_at = if same_status from to then d.status_changed_at else some now;
          })
          db.devices;
  })

guarded_credential : Credential → Option Device → Tx Db (Unit {0})
guarded_credential c none db = raised (internal_error "Managed device does not exist")
guarded_credential c (some d) db =
    if is_approved d.status
    then done tt (record db { credentials = c ∷ db.credentials })
    else raised (internal_error "Active credentials may only be issued to approved devices")

-- INSERT of an active credential, with the trigger `enforce_active_device_credential_state`.
unfoldable pub insert_credential : Credential → Tx Db (Unit {0})
unfolding guarded_credential
insert_credential c db = guarded_credential c (find_where (λ d. d.id == c.device_id) db.devices) db

new_row : Device → Option Device → Tx Db (Unit {0})
new_row d (some e) db = raised (internal_error "duplicate key value violates managed_devices_pkey")
new_row d none db =
    if same_status d.status pending
    then done tt (record db {
      devices = d ∷ db.devices;
      history =
          record {
            device_id = d.id;
            from_status = none;
            to_status = d.status;
            changed_by = d.status_changed_by;
          }
          ∷ db.history;
    })
    else raised (internal_error "Every new managed device must start Pending Approval")

-- INSERT of a device: the primary key, the trigger's demand that it starts pending, and the row of
-- the history.
unfoldable pub insert_device : Device → Tx Db (Unit {0})
unfolding new_row
insert_device d db = new_row d (find_where (λ e. e.id == d.id) db.devices) db
