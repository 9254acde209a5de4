-- ===== src/Lifecycle.antt =====
-- main.py `approve_device` and `change_device_status`: what a manager does to a device.
pub mod Walk
pub mod Closing
pub mod Approving
use rustdesk_managed_directo.Common.{
  ℕ, String, ◌<>◌, Bool, false, not, ◌&&◌, ◌||◌, Option, none, some, List, ◌==◌, str_eq,
  if◌then◌else◌, is_null, coalesce, update_where,
}
use rustdesk_managed_directo.Http.{
  http, Tx, Reply, accepted, pure, raise, gets, modify, raise_if, ◌>>=◌, ◌>>◌,
}
use rustdesk_managed_directo.Store.{
  Status, pending, approved, denied, blocked, revoked, Device, Credential, Lease, Authorization,
  Recovery, EdgeCert, JobKind, Db, is_approved, is_blocked, is_revoked,
}
use rustdesk_managed_directo.Store.Env.{Env}
use rustdesk_managed_directo.Store.Triggers.{
  revoke_credentials, update_status, insert_credential, status_text,
}
use rustdesk_managed_directo.Store.Queries.{
  stripped, ensure_friendly_name_available, get_device, get_device_for_update,
  active_device_credential, sec8_mode, write_audit, sec8_enqueue,
}

-- What a request brings besides its payload: the time, the address, and the values that the handler
-- or the database draws (uuid4, gen_random_uuid, a sequence, token_urlsafe).
pub record Context : Type 0 where
  pub now : ℕ
  pub source_ip : Option String
  pub fresh_id : ℕ
  pub fresh_serial : ℕ
  pub fresh_token : String
  pub job_id : ℕ

-- `sign_device_credential`
unfoldable pub sign_device_credential : Env → Device → Credential → ℕ → String
sign_device_credential env device c instance_id = env.encode_device (record {
  sub = device.id;
  serial = c.credential_serial;
  rustdesk_id = device.rustdesk_id;
  pkh = env.sha256 device.device_public_key;
  instance_id = instance_id;
  kind = "device_credential";
  iat = c.issued_at;
  exp = c.expires_at;
})

pub record Approval : Type 0 where
  pub device_id : ℕ
  pub friendly_name : Option String
  pub credential_serial : ℕ
  pub credential : String

-- The UPDATE of managed_devices in `approve_device`, on its two branches. The code leaves out the
-- second one if the name is the same, where it would set the column to the value it has.
unfoldable pub mark_approved : Device → Option String → String → ℕ → ℕ → Tx Db (Unit {0})
mark_approved device name reason actor now =
    if not (is_approved device.status)
    then update_status device.id now device.status approved reason actor
        (λ d. record d { friendly_name = name })
    else modify (λ db. record db {
      devices =
          update_where (λ d. d.id == device.id) (λ d. record d { friendly_name = name }) db.devices;
    })

abbrev pub new_credential : ℕ → ℕ → ℕ → ℕ → Credential
new_credential device_id serial actor now = record {
  device_id = device_id;
  credential_serial = serial;
  issued_by = actor;
  issued_at = now;
  expires_at = none;
  revoked_at = none;
  revoked_by = none;
  revocation_reason = none;
}

unfoldable pub issue_credential : Option Credential → ℕ → ℕ → ℕ → ℕ → Tx Db Credential
issue_credential (some c) device_id serial actor now = pure c
issue_credential none device_id serial actor now = do
  insert_credential (new_credential device_id serial actor now)
  pure (new_credential device_id serial actor now)

-- The active credential of the device, or a new one.
unfoldable pub credential_of : ℕ → ℕ → ℕ → ℕ → Tx Db Credential
unfolding issue_credential
credential_of device_id serial actor now = do
  found ← gets (λ db. active_device_credential device_id now db.credentials)
  issue_credential found device_id serial actor now

abbrev pub or_text : Option String → String → String
or_text none fallback = fallback
or_text (some t) fallback = t

-- `_sec8_device_payload` is not None: the row is there and has a key.
abbrev pub has_key : ℕ → List Device → Bool
has_key device_id devices = elim (get_device devices device_id) [
  | none ↦ false
  | some d ↦ not (str_eq d.device_public_key "")
]

-- Queues the first passport of a device that was not approved before.
unfoldable pub queue_first_passport : Status → ℕ → ℕ → Tx Db (Unit {0})
queue_first_passport previous job_id device_id = do
  mode ← gets (λ db. sec8_mode db.settings)
  keyed ← gets (λ db. has_key device_id db.devices)
  if not (is_approved previous) && not (str_eq mode "off") && keyed
      then sec8_enqueue job_id JobKind.issue device_id none none
      else pure tt

unfoldable pub approve_device :
    Env → Context → ℕ → Option String → Option String → ℕ → Tx Db (Reply Approval)
approve_device env ctx device_id friendly_name reason actor = do
  device ← get_device_for_update device_id
  raise_if (is_blocked device.status || is_revoked device.status)
      (http 409 "Blocked or revoked devices cannot be approved directly")
  let name = coalesce (stripped env friendly_name) device.friendly_name
  ensure_friendly_name_available env name (some device_id)
  mark_approved device name (or_text (stripped env reason) "Approved by operator") actor ctx.now
  credential ← credential_of device_id ctx.fresh_serial actor ctx.now
  instance_id ← gets (λ db. db.instance_id)
  queue_first_passport device.status ctx.job_id device_id
  write_audit (record {
    event_type = "device.approved";
    actor = some actor;
    target_id = some device_id;
    source_ip = ctx.source_ip;
    reason = "";
  })
  pure (
      accepted (record {
        device_id = device_id;
        friendly_name = name;
        credential_serial = credential.credential_serial;
        credential = sign_device_credential env device credential instance_id;
      }))

-- What the guards of `change_device_status` say of a new and a previous status.
pub data Verdict : Type 0 where
  unchanged proceed : Verdict
  refuse : String → Verdict

unfoldable pub transition : Status → Status → Verdict
transition denied denied = unchanged
transition denied pending = proceed
transition denied _ = refuse "Only pending devices may be denied"
transition revoked revoked = unchanged
transition revoked approved = proceed
transition revoked _ = refuse "Only approved devices may be revoked"
transition blocked blocked = unchanged
transition blocked revoked = refuse "Revoked devices are terminal and cannot be blocked"
transition blocked approved = proceed
transition blocked pending = proceed
transition blocked denied = refuse "Only approved or pending devices may be blocked"
transition pending _ = proceed
transition approved _ = proceed

-- `_revoke_rows`: a row is marked only if Cloudflare confirmed.
unfoldable pub revoke_device_edge_certs : Env → ℕ → ℕ → List EdgeCert → List EdgeCert
revoke_device_edge_certs env device_id now certs =
    update_where
      (λ c. (elim c.device_id [ none ↦ false | some id ↦ id == device_id ]) && is_null c.revoked_at)
      (λ c. if env.cf_revoke c.cf_cert_id then record c { revoked_at = some now } else c) certs

unfoldable pub revoke_leases : ℕ → ℕ → List Lease → List Lease
revoke_leases device_id now leases =
    update_where (λ l. l.device_id == device_id && is_null l.revoked_at)
      (λ l. record l { revoked_at = some now }) leases

-- consumed_at IS NULL AND revoked_at IS NULL, for one device
unfoldable pub is_open_authorization : ℕ → Authorization → Bool
is_open_authorization device_id a =
    a.device_id == device_id && is_null a.consumed_at && is_null a.revoked_at

unfoldable pub revoke_authorizations : ℕ → ℕ → List Authorization → List Authorization
unfolding is_open_authorization
revoke_authorizations device_id now authorizations =
    update_where (is_open_authorization device_id) (λ a. record a { revoked_at = some now })
      authorizations

-- fulfilled_at IS NULL AND cancelled_at IS NULL, for one device
unfoldable pub is_open_recovery : ℕ → Recovery → Bool
is_open_recovery device_id r =
    r.device_id == device_id && is_null r.fulfilled_at && is_null r.cancelled_at

unfoldable pub cancel_recoveries : ℕ → ℕ → List Recovery → List Recovery
unfolding is_open_recovery
cancel_recoveries device_id now recoveries =
    update_where (is_open_recovery device_id) (λ r. record r { cancelled_at = some now }) recoveries

-- The five UPDATEs for a device that is blocked or revoked.
unfoldable pub terminal_cleanup : Env → ℕ → ℕ → ℕ → Db → Db
unfolding revoke_credentials revoke_device_edge_certs revoke_leases revoke_authorizations
    cancel_recoveries
terminal_cleanup env device_id now actor db = record db {
  credentials =
      revoke_credentials device_id now actor "Managed client permanently blocked" db.credentials;
  edge_certs = revoke_device_edge_certs env device_id now db.edge_certs;
  leases = revoke_leases device_id now db.leases;
  authorizations = revoke_authorizations device_id now db.authorizations;
  recoveries = cancel_recoveries device_id now db.recoveries;
}

pub record StatusReply : Type 0 where
  pub device_id : ℕ
  pub status : Status

-- The part of `change_device_status` behind its guards.
unfoldable pub apply_status :
    Env → Context → Device → Status → String → ℕ → Tx Db (Reply StatusReply)
apply_status env ctx device new reason actor = do
  let ends = is_blocked new || is_revoked new
  modify (λ db. if ends then terminal_cleanup env device.id ctx.now actor db else db)
  update_status device.id ctx.now device.status new (env.strip reason) actor (λ d. d)
  if ends then sec8_enqueue ctx.job_id JobKind.revoke device.id none none else pure tt
  write_audit (record {
    event_type = "device." <> status_text new;
    actor = some actor;
    target_id = some device.id;
    source_ip = ctx.source_ip;
    reason = env.strip reason;
  })
  pure (accepted (record { device_id = device.id; status = new }))

verdict : Env → Context → Device → Status → String → ℕ → Verdict → Tx Db (Reply StatusReply)
verdict env ctx device new reason actor unchanged =
    pure (accepted (record { device_id = device.id; status = new }))
verdict env ctx device new reason actor (refuse detail) = raise (http 409 detail)
verdict env ctx device new reason actor proceed = apply_status env ctx device new reason actor

unfoldable pub change_device_status :
    Env → Context → ℕ → Status → String → ℕ → Tx Db (Reply StatusReply)
unfolding verdict
change_device_status env ctx device_id new reason actor = do
  device ← get_device_for_update device_id
  verdict env ctx device new reason actor (transition new device.status)

-- The three routes, each with its own status.
unfoldable pub deny_device : Env → Context → ℕ → String → ℕ → Tx Db (Reply StatusReply)
deny_device env ctx device_id reason actor =
    change_device_status env ctx device_id denied reason actor

unfoldable pub block_device : Env → Context → ℕ → String → ℕ → Tx Db (Reply StatusReply)
block_device env ctx device_id reason actor =
    change_device_status env ctx device_id blocked reason actor

unfoldable pub revoke_device : Env → Context → ℕ → String → ℕ → Tx Db (Reply StatusReply)
revoke_device env ctx device_id reason actor =
    change_device_status env ctx device_id revoked (env.strip reason) actor
