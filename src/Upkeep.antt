-- ===== src/Upkeep.antt =====
-- What changes device rows besides System's requests: main.py `device_heartbeat`, with which a client
-- may rename itself, and the deletion of a device in admin_ui.py `admin_device_action`. An action is one
-- of these, one of System's requests, or the transaction of `require_operator` that comes before an
-- operator's request.
pub mod Rows
pub mod Statuses
pub mod Reserved
use rustdesk_managed_directo.Common.{
  ℕ, String, ◌+◌, Bool, false, not, ◌||◌, Option, none, some, List, [], ◌∷◌, ◌==◌, str_eq,
  if◌then◌else◌, select, update_where,
}
use rustdesk_managed_directo.Http.{
  http, Tx, Reply, accepted, pure, modify, raise_if, commit, ◌>>=◌, ◌>>◌,
}
use rustdesk_managed_directo.Store.{
  Device, Db, EdgeCert, EnrollmentEvent, Job, is_blocked, is_revoked, is_owner, manages_devices,
}
use rustdesk_managed_directo.Store.Env.{Env}
use rustdesk_managed_directo.Store.Queries.{name_taken, get_device_for_update, write_audit}
use rustdesk_managed_directo.Operators.Gates.{Operator}
use rustdesk_managed_directo.Operators.Sessions.{require_operator}
use rustdesk_managed_directo.Lifecycle.{Context}
use rustdesk_managed_directo.Enrollment.Readmit.{poll_seconds}
use rustdesk_managed_directo.Devices.{require_device}
use rustdesk_managed_directo.System.{Request, handle}

-- The fields of DeviceHeartbeatRequest that rules read.
pub record Heartbeat : Type 0 where
  pub hostname : Option String
  pub friendly_name : Option String

abbrev pub is_name : Option String → String → Bool
is_name none n = false
is_name (some m) n = str_eq m n

-- The payload's text, stripped, unless it is missing or blank.
abbrev pub given : Env → Option String → Option String
given env none = none
given env (some t) = if str_eq (env.strip t) "" then none else some (env.strip t)

-- The name that the heartbeat sets: a new one that no other device reserves. A collision is skipped.
unfoldable pub renames : Env → Device → Option String → List Device → Option String
renames env device none devices = none
renames env device (some name) devices =
    if str_eq (env.strip name) ""
      || is_name device.friendly_name (env.strip name)
      || name_taken env (some name) (some device.id) devices
    then none
    else some (env.strip name)

abbrev pub or_old {ℓ} : {A : Type ℓ} → Option A → A → A
or_old none old = old
or_old (some new) old = new

abbrev pub or_older {ℓ} : {A : Type ℓ} → Option A → Option A → Option A
or_older none old = old
or_older (some new) old = some new

-- The SET clauses, on the columns that the model has.
unfoldable pub seen : Env → Context → Heartbeat → Option String → Device → Device
seen env ctx payload name e = record e {
  last_ip = ctx.source_ip;
  last_seen_at = some ctx.now;
  poll_expires_at = some (ctx.now + poll_seconds);
  hostname = or_old (given env payload.hostname) e.hostname;
  friendly_name = or_older name e.friendly_name;
}

-- `device_heartbeat`, for a device that `require_device` let through
unfoldable pub device_heartbeat : Env → Context → Device → Heartbeat → Tx Db (Reply (Unit {0}))
device_heartbeat env ctx device payload = do
  modify (λ db. record db {
    devices =
        update_where (λ e. e.id == device.id)
          (seen env ctx payload (renames env device payload.friendly_name db.devices)) db.devices;
  })
  pure (accepted tt)

abbrev of_device : ℕ → Option ℕ → Bool
of_device id none = false
of_device id (some k) = k == id

-- DELETE FROM managed_devices WHERE id = …, with ON DELETE CASCADE and ON DELETE SET NULL
unfoldable pub delete_device_row : ℕ → Db → Db
delete_device_row id db = record db {
  devices = select (λ d. not (d.id == id)) db.devices;
  credentials = select (λ c. not (c.device_id == id)) db.credentials;
  leases = select (λ l. not (l.device_id == id)) db.leases;
  authorizations = select (λ a. not (a.device_id == id)) db.authorizations;
  recoveries = select (λ r. not (r.device_id == id)) db.recoveries;
  history = select (λ h. not (h.device_id == id)) db.history;
  jobs = select (λ (j : Job). not (of_device id j.device_id)) db.jobs;
  passports = select (λ p. not (p.device_id == id)) db.passports;
  edge_certs =
      update_where (λ (c : EdgeCert). of_device id c.device_id) (λ c. record c { device_id = none })
        db.edge_certs;
  enrollment_events =
      update_where (λ (e : EnrollmentEvent). of_device id e.device_id)
        (λ e. record e { device_id = none }) db.enrollment_events;
}

-- `require_admin_device_manager` on the row that `require_operator` returned
unfoldable pub require_admin_device_manager : Operator → Tx Db (Unit {0})
require_admin_device_manager o = do
  raise_if o.must_change_password (http 403 "Dashboard authorization is required")
  raise_if (not (manages_devices o.role)) (http 403 "Owner or Manager authorization is required")

-- `admin_device_action` with the action 'delete'
unfoldable pub delete_device : Env → Context → Operator → ℕ → String → Tx Db (Reply (Unit {0}))
delete_device env ctx o id reason = do
  require_admin_device_manager o
  raise_if (not (is_owner o.role)) (http 403 "Owner authorization is required")
  raise_if (str_eq (env.strip reason) "") (http 422 "A reason is required")
  device ← get_device_for_update id
  raise_if (not (is_blocked device.status || is_revoked device.status))
      (http 409 "Only blocked or revoked managed-device records can be deleted")
  write_audit (record {
    event_type = "device.deleted";
    actor = some o.account_id;
    target_id = some id;
    source_ip = ctx.source_ip;
    reason = env.strip reason;
  })
  modify (delete_device_row id)
  pure (accepted tt)

pub data Action : Type 0 where
  request : Request → Action
  sign : Option String → Action
  heartbeat : Option String → Heartbeat → Action
  delete : Operator → ℕ → String → Action

-- The tables after an action, accepted, refused or rolled back.
unfoldable pub act : Env → Context → Action → Db → Db
act env ctx (request r) db = handle env ctx r db
act env ctx (sign token) db =
    (commit (do o ← require_operator env ctx.now token; pure (accepted o)) db).1
act env ctx (heartbeat credential payload) db =
    (commit
      (do found ← require_device env ctx.now credential; device_heartbeat env ctx found.0 payload)
      db).1
act env ctx (delete o id reason) db = (commit (delete_device env ctx o id reason) db).1

unfoldable pub act_all : Env → List (Context × Action) → Db → Db
act_all env [] db = db
act_all env ((ctx, a) ∷ rest) db = act_all env rest (act env ctx a db)
