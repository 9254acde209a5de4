-- ===== src/System/Access.antt =====
-- Who is let through by `validate_device_credential`, now and after any requests.
use rustdesk_managed_directo.Common.{
  ℕ, String, ◌≡◌, refl, true, Option, none, some, List, arith, str_eq, inl, inr, if◌then◌else◌,
  is_null, unexpired, find_where, find_where_sound, Bool-cases, Option-cases, All-find_where,
}
use rustdesk_managed_directo.Store.{Status, revoked, Device, Credential, Db, is_approved}
use rustdesk_managed_directo.Store.Env.{Env, DeviceClaims}
use rustdesk_managed_directo.Store.Queries.{get_device}
use rustdesk_managed_directo.Store.View.{status_in, status_in-get_device}
use rustdesk_managed_directo.Store.Keyed.{Keyed, FindsItself}
use rustdesk_managed_directo.Store.Sound.{Sound}
use rustdesk_managed_directo.Lifecycle.{Context}
use rustdesk_managed_directo.Devices.{
  accepts_credential, accepts_device, check_key, check_claims, validate_device_credential,
}
use rustdesk_managed_directo.System.{Request, run}
use rustdesk_managed_directo.System.Sound.{run-Sound}
use rustdesk_managed_directo.System.Moves.{run-revoked}

-- What the claims of a token have to match.
pub record Admitted (env : Env) (now : ℕ) (db : Db) (claims : DeviceClaims) (d : Device)
    (c : Credential) : Type 0 where
  pub device_row : find_where (accepts_device claims db.instance_id) db.devices ≡ some d
  pub credential_row : find_where (accepts_credential claims now) db.credentials ≡ some c
  pub digest : str_eq (env.sha256 d.device_public_key) claims.pkh ≡ true

check_key-tells :
    (env : Env) (claims : DeviceClaims) (e : Device) (o : Option Credential) {d : Device}
    {c : Credential}
    → check_key env claims e o ≡ some (d, c)
    → (e ≡ d) × (o ≡ some c) × (str_eq (env.sha256 e.device_public_key) claims.pkh ≡ true)
unfolding check_key
check_key-tells env claims e none h = cc
check_key-tells env claims e (some b) {d} {c} h =
    elim (Bool-cases (str_eq (env.sha256 e.device_public_key) claims.pkh)) [
      | inr off ↦ let k : none ≡ some (d, c) = (rw off at h) in cc k
      | inl on ↦ let k : some (e, b) ≡ some (d, c) = (rw on at h) in (cc k, cc k, on)
    ]

module _ (env : Env) (now : ℕ) (db : Db) where
  check_claims-Admitted :
      (claims : DeviceClaims) {d : Device} {c : Credential}
      → check_claims env now claims db ≡ some (d, c)
      → Admitted env now db claims d c
  unfolding check_claims
  check_claims-Admitted claims {d} {c} h =
      elim (Option-cases (find_where (accepts_device claims db.instance_id) db.devices)) [
        | inl off ↦ let k : none ≡ some (d, c) = (rw (check_claims, off) at h) in cc k
        | inr (e, was) ↦
            let k : check_key env claims e
                  (find_where (accepts_credential claims now) db.credentials)
                ≡ some (d, c) =
              (rw (check_claims, was) at h) in
            let t = check_key-tells env claims e _ k in
            record {
              device_row = rw (was, t.0) refl;
              credential_row = t.1;
              digest = rw (← t.0) t.2;
            }
      ]

  kind_checked :
      (claims : DeviceClaims) {d : Device} {c : Credential}
      → (if str_eq claims.kind "device_credential" then check_claims env now claims db else none)
        ≡ some (d, c)
      → (str_eq claims.kind "device_credential" ≡ true)
        × (check_claims env now claims db ≡ some (d, c))
  kind_checked claims {d} {c} h = elim (Bool-cases (str_eq claims.kind "device_credential")) [
    | inl on ↦ (on, rw on at h)
    | inr off ↦ let k : none ≡ some (d, c) = (rw off at h) in cc k
  ]

-- A token under the service's secret that speaks for the device and its credential.
pub record Genuine (env : Env) (now : ℕ) (token : String) (d : Device) (c : Credential)
    : Type 0 where
  pub claims : DeviceClaims
  pub decoded : env.decode_device token now ≡ some claims
  pub kind : str_eq claims.kind "device_credential" ≡ true
  pub digest : str_eq (env.sha256 d.device_public_key) claims.pkh ≡ true
  pub subject : d.id ≡ claims.sub
  pub status : is_approved d.status ≡ true
  pub owner : c.device_id ≡ d.id
  pub serial : c.credential_serial ≡ claims.serial
  pub unrevoked : is_null c.revoked_at ≡ true
  pub unexpired : unexpired c.expires_at now ≡ true

module _ (env : Env) (now : ℕ) (db : Db) where
  Admitted-Genuine :
      (token : String) (claims : DeviceClaims) {d : Device} {c : Credential}
      → env.decode_device token now ≡ some claims
      → str_eq claims.kind "device_credential" ≡ true
      → Admitted env now db claims d c
      → Genuine env now token d c
  unfolding accepts_device accepts_credential
  Admitted-Genuine token claims {d} {c} e k a =
      let p = find_where_sound (accepts_device claims db.instance_id) db.devices a.device_row in
      let q = find_where_sound (accepts_credential claims now) db.credentials a.credential_row in
      record {
        claims = claims;
        decoded = e;
        kind = k;
        digest = a.digest;
        subject = ground (arith, p);
        status = ground (arith, p);
        owner = ground (arith, p, q);
        serial = ground (arith, q);
        unrevoked = ground (arith, q);
        unexpired = ground (arith, q);
      }

  -- A token that is accepted has claims of the right kind that name an approved device and a
  -- credential of it that is neither revoked nor expired, and carries the digest of the device's
  -- current public key.
  pub validate-Genuine :
      (token : String) {d : Device} {c : Credential}
      → validate_device_credential env now token db ≡ some (d, c)
      → Genuine env now token d c
  unfolding validate_device_credential
  validate-Genuine token {d} {c} h = elim (Option-cases (env.decode_device token now)) [
    | inl off ↦ let k : none ≡ some (d, c) = (rw (validate_device_credential, off) at h) in cc k
    | inr (claims, was) ↦
        let t = kind_checked env now db claims (rw (validate_device_credential, was) at h) in
        Admitted-Genuine token claims was t.0 (check_claims-Admitted env now db claims t.1)
  ]

  -- The device is a row of the table, under its own id.
  pub validate-get_device :
      (token : String) {d : Device} {c : Credential}
      → Keyed db.devices
      → validate_device_credential env now token db ≡ some (d, c)
      → get_device db.devices d.id ≡ some d
  unfolding validate_device_credential
  validate-get_device token {d} {c} keyed h = elim (Option-cases (env.decode_device token now)) [
    | inl off ↦ let k : none ≡ some (d, c) = (rw (validate_device_credential, off) at h) in cc k
    | inr (claims, was) ↦
        let t = kind_checked env now db claims (rw (validate_device_credential, was) at h) in
        let a = check_claims-Admitted env now db claims t.1 in
        All-find_where (FindsItself db.devices) (accepts_device claims db.instance_id) db.devices
          keyed a.device_row
  ]

-- Once a device is revoked, no sequence of requests makes a token that it may use: whatever token
-- is accepted afterwards, at whatever time, speaks for another device.
pub run-locked_out :
    (env : Env) (requests : List (Context × Request)) (db : Db) (k : ℕ)
    → Sound db
    → status_in db.devices k ≡ some revoked
    → (now : ℕ) (token : String) (d : Device) (c : Credential)
    → validate_device_credential env now token (run env requests db) ≡ some (d, c)
    → ¬ (d.id ≡ k)
run-locked_out env requests db k sound was now token d c h same =
    let t = run env requests db in
    let row : get_device t.devices d.id ≡ some d =
      validate-get_device env now t token (run-Sound env requests db sound).0 h in
    let g = validate-Genuine env now t token h in
    let s : status_in t.devices d.id ≡ some d.status = status_in-get_device t.devices d.id row in
    let r : status_in t.devices k ≡ some revoked = run-revoked env requests db k sound was in
    clash d.status g.status (rw same at s) r
  where
    clash :
        {o : Option Status}
        → (s : Status) → is_approved s ≡ true
        → o ≡ some s
        → o ≡ some revoked
        → ⊥
    clash s a e f = ground arith
