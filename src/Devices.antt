-- ===== src/Devices.antt =====
-- What an approved device does: main.py `validate_device_credential` and `require_device`, and
-- security_extension.py `device_relay_lease`.
pub mod Walk
use rustdesk_managed_directo.Common.{
  ℕ, String, ◌+◌, Bool, ◌&&◌, Option, none, some, ◌∷◌, ◌==◌, str_eq, if◌then◌else◌, is_null,
  unexpired, find_where,
}
use rustdesk_managed_directo.Http.{
  http, unauthorized, Tx, Reply, accepted, pure, raise, modify, ◌>>=◌, ◌>>◌,
}
use rustdesk_managed_directo.Store.{Device, Credential, Lease, Db, is_approved}
use rustdesk_managed_directo.Store.Env.{Env, DeviceClaims}
use rustdesk_managed_directo.Store.Queries.{found}
use rustdesk_managed_directo.Lifecycle.{Context, revoke_leases}

-- c.credential_serial = … AND c.revoked_at IS NULL AND (c.expires_at IS NULL OR c.expires_at > …)
unfoldable pub accepts_credential : DeviceClaims → ℕ → Credential → Bool
accepts_credential claims now c =
    c.device_id == claims.sub
    && c.credential_serial == claims.serial
    && is_null c.revoked_at
    && unexpired c.expires_at now

-- d.id = … AND d.rustdesk_id = … AND d.status = 'approved' AND di.instance_id = …
unfoldable pub accepts_device : DeviceClaims → ℕ → Device → Bool
accepts_device claims instance_id d =
    d.id == claims.sub
    && str_eq d.rustdesk_id claims.rustdesk_id
    && is_approved d.status
    && claims.instance_id == instance_id

unfoldable pub check_key :
    Env → DeviceClaims → Device → Option Credential → Option (Device × Credential)
check_key env claims d none = none
check_key env claims d (some c) =
    if str_eq (env.sha256 d.device_public_key) claims.pkh then some (d, c) else none

-- The row of the join, and the comparison of the key's digest.
unfoldable pub check_claims : Env → ℕ → DeviceClaims → Db → Option (Device × Credential)
unfolding check_key
check_claims env now claims db =
    elim (find_where (accepts_device claims db.instance_id) db.devices) [
      | none ↦ none
      | some d ↦ check_key env claims d (find_where (accepts_credential claims now) db.credentials)
    ]

unfoldable pub validate_device_credential : Env → ℕ → String → Db → Option (Device × Credential)
validate_device_credential env now credential db = elim (env.decode_device credential now) [
  | none ↦ none
  | some claims ↦
      if str_eq claims.kind "device_credential" then check_claims env now claims db else none
]

-- `require_device`: the bearer token of the request.
unfoldable pub require_device : Env → ℕ → Option String → Tx Db (Device × Credential)
require_device env now none db = raise unauthorized db
require_device env now (some credential) db =
    found (validate_device_credential env now credential db) unauthorized db

abbrev relay_lease_seconds : ℕ
relay_lease_seconds = 600

-- `_safe_client_ip`
pub safe_client_ip : Env → Option String → Tx Db String
safe_client_ip env none = raise (http 400 "Source IP address is unavailable")
safe_client_ip env (some raw) =
    if str_eq raw ""
    then raise (http 400 "Source IP address is unavailable")
    else (λ db. found (env.parse_ip (env.strip raw)) (http 400 "Source IP address is invalid") db)

-- `device_relay_lease`, for a device that `require_device` let through.
unfoldable pub device_relay_lease : Env → Context → Device × Credential → Tx Db (Reply Lease)
unfolding safe_client_ip
device_relay_lease env ctx (device, credential) = do
  source_ip ← safe_client_ip env ctx.source_ip
  let lease : Lease = record {
    id = ctx.fresh_id;
    device_id = device.id;
    credential_serial = credential.credential_serial;
    source_ip = source_ip;
    issued_at = ctx.now;
    expires_at = ctx.now + relay_lease_seconds;
    revoked_at = none;
  }
  modify (λ db. record db { leases = lease ∷ revoke_leases device.id ctx.now db.leases })
  pure (accepted lease)
