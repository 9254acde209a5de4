-- ===== src/System/RoundTrip.antt =====
-- The credential that an approval answers is one that `validate_device_credential` accepts.
use rustdesk_managed_directo.Common.{
  ℕ, String, ◌≡◌, refl, ap, ◌∙◌, Bool, true, false, Option, none, some, List, [], ◌∷◌, ◌==◌, arith,
  inl, inr, str_eq, str_eq_iff, coalesce, find_where, Bool-cases,
}
use rustdesk_managed_directo.Http.{accepted, done, ◌>>=◌}
use rustdesk_managed_directo.Store.{pending, approved, Device, Credential, Audit, Db}
use rustdesk_managed_directo.Store.Env.{Env, DeviceClaims}
use rustdesk_managed_directo.Store.Queries.{
  get_device, get_device_for_update, name_taken, stripped, active_device_credential, write_audit,
  ensure_friendly_name_available,
}
use rustdesk_managed_directo.Store.Triggers.{may_change_status}
use rustdesk_managed_directo.Store.View.{status_in-get_device, id-get_device}
use rustdesk_managed_directo.Store.Sound.{Sound}
use rustdesk_managed_directo.Lifecycle.{
  Context, Approval, or_text, new_credential, approve_device, sign_device_credential,
}
use rustdesk_managed_directo.Devices.{
  accepts_credential, accepts_device, check_key, check_claims, validate_device_credential,
}
use rustdesk_managed_directo.Lifecycle.Approving.{
  Marked, Alike, none_active, mark_approved-Marked, Marked-get_device, credential_of-new,
  queue_first_passport-Alike, opens,
}

-- The rows that the WHERE of `validate_device_credential` asks for have the id of the claims.
find_by_id :
    (p : Device → Bool) (id : ℕ) (devices : List Device) {d : Device}
    → ((e : Device) → p e ≡ true → e.id ≡ id)
    → get_device devices id ≡ some d
    → p d ≡ true
    → find_where p devices ≡ some d
unfolding get_device find_where
find_by_id p id [] key row meets = cc
find_by_id p id (e ∷ devices) {d} key row meets = elim (Bool-cases (e.id == id)) [
  | inl on ↦
      let q : some e ≡ some d = (rw on at row) in
      let same : e ≡ d = cc q in let yes_p : p e ≡ true = rw same meets in rw yes_p q
  | inr off ↦ elim (Bool-cases (p e)) [
    | inl yes_p ↦ let k = key e yes_p in ground arith
    | inr no_p ↦ rw no_p (find_by_id p id devices key (rw off at row) meets)
  ]
]

-- What `sign_device_credential` writes, and what PyJWT is relied on for: it reads a token of these
-- claims back at a time.
abbrev pub claims_of : Env → Device → Credential → ℕ → DeviceClaims
claims_of env d c instance_id = record {
  sub = d.id;
  serial = c.credential_serial;
  rustdesk_id = d.rustdesk_id;
  pkh = env.sha256 d.device_public_key;
  instance_id = instance_id;
  kind = "device_credential";
  iat = c.issued_at;
  exp = c.expires_at;
}

abbrev pub ReadsBack : Env → DeviceClaims → ℕ → Type 0
ReadsBack env claims now = env.decode_device (env.encode_device claims) now ≡ some claims

-- The row of a device that the claims of its credential name.
module _ (env : Env) (d row : Device) (c : Credential) (db : Db) where
  claims-row :
      get_device db.devices d.id ≡ some row
      → row.status ≡ approved
      → row.rustdesk_id ≡ d.rustdesk_id
      → find_where (accepts_device (claims_of env d c db.instance_id) db.instance_id) db.devices
        ≡ some row
  unfolding accepts_device
  claims-row found was same =
      let id = id-get_device db.devices d.id found in
      find_by_id _ d.id db.devices (λ e h. ground arith) found
        (let same_id : str_eq row.rustdesk_id d.rustdesk_id ≡ true = (str_eq_iff _ _).1 same in
          ground arith)

  claims-accepted :
      (now : ℕ)
      → find_where (accepts_device (claims_of env d c db.instance_id) db.instance_id) db.devices
        ≡ some row
      → find_where (accepts_credential (claims_of env d c db.instance_id) now) db.credentials
        ≡ some c
      → row.device_public_key ≡ d.device_public_key
      → check_claims env now (claims_of env d c db.instance_id) db ≡ some (row, c)
  unfolding check_claims check_key
  claims-accepted now f g key =
      let same : str_eq (env.sha256 row.device_public_key) (env.sha256 d.device_public_key) ≡ true =
        (str_eq_iff _ _).1 (ap env.sha256 key) in
      rw (check_claims, f, g, check_key, same) refl

  signed-accepted :
      (now : ℕ)
      → env.decode_device (env.encode_device (claims_of env d c db.instance_id)) now
        ≡ some (claims_of env d c db.instance_id)
      → check_claims env now (claims_of env d c db.instance_id) db ≡ some (row, c)
      → validate_device_credential env now (sign_device_credential env d c db.instance_id) db
        ≡ some (row, c)
  unfolding validate_device_credential sign_device_credential
  signed-accepted now reads accepted_claims = rw (validate_device_credential, reads) accepted_claims

first_credential :
    (env : Env) (d : Device) (serial actor issued instance_id now : ℕ) (cs : List Credential)
    → let c = new_credential d.id serial actor issued in
      find_where (accepts_credential (claims_of env d c instance_id) now) (c ∷ cs) ≡ some c
unfolding accepts_credential find_where
first_credential env d serial actor issued instance_id now cs = ground arith

approved-validates :
    (env : Env) (d : Device) (old t u : Db) (m : Marked d old t) (serial actor issued later : ℕ)
    → get_device old.devices d.id ≡ some d
    → (let c = new_credential d.id serial actor issued in
        Alike (record t { credentials = c ∷ t.credentials }) u)
    → (let c = new_credential d.id serial actor issued in
        ReadsBack env (claims_of env d c old.instance_id) later)
    → (l : List Audit)
    → (let c = new_credential d.id serial actor issued in
        validate_device_credential env later
          (sign_device_credential env d c t.instance_id)
          (record u { audit = l })
        ≡ some (m.row d, c))
approved-validates env d old t u m serial actor issued later found alike reads l =
    let c = new_credential d.id serial actor issued in
    let v = record u { audit = l } in
    let row_v : get_device v.devices d.id ≡ some (m.row d) =
      rw alike.devices (Marked-get_device m found) in
    let cred : find_where (accepts_credential (claims_of env d c v.instance_id) later) v.credentials
        ≡ some c =
      rw alike.credentials
        (first_credential env d serial actor issued v.instance_id later t.credentials) in
    let same : v.instance_id ≡ old.instance_id = alike.instance_id ∙ m.instance_id in
    let reads_v : ReadsBack env (claims_of env d c v.instance_id) later = rw same reads in
    rw (← alike.instance_id) (
      signed-accepted env d (m.row d) c v later reads_v (
        claims-accepted env d (m.row d) c v later
          (claims-row env d (m.row d) c v row_v m.status m.rustdesk_id) cred m.key))

-- Approving a pending device, by an account that may change statuses and with a name that no other
-- device reserves, succeeds, and in the tables it leaves the directory accepts the credential it
-- answers for this device, at any time at which PyJWT reads the token back.
pub approve_device-validates :
    (env : Env) (ctx : Context) (name reason : Option String) (actor later : ℕ) (db : Db)
    (d : Device)
    → Sound db
    → get_device db.devices d.id ≡ some d
    → d.status ≡ pending
    → may_change_status db.accounts actor ≡ true
    → name_taken env (coalesce (stripped env name) d.friendly_name) (some d.id) db.devices ≡ false
    → ReadsBack env
        (claims_of env d (new_credential d.id ctx.fresh_serial actor ctx.now) db.instance_id)
        later
    → (t : Db) × (approval : Approval) × (row : Device) × (c : Credential) × (approve_device env ctx
          d.id name reason actor db
        ≡ done (accepted approval) t)
      × (row.id ≡ d.id)
      × (validate_device_credential env later approval.credential t ≡ some (row, c))
unfolding approve_device get_device_for_update ensure_friendly_name_available write_audit ◌>>=◌
approve_device-validates env ctx name reason actor later db d sound found was may free reads =
    let m =
      mark_approved-Marked d (coalesce (stripped env name) d.friendly_name)
        (or_text (stripped env reason) "Approved by operator") actor ctx.now db was may in
    let t = m.0 in
    let row = m.2.row d in
    let none_at_t : active_device_credential d.id ctx.now t.credentials ≡ none =
      rw m.2.credentials (
        none_active db d ctx.now sound
          (status_in-get_device db.devices d.id found ∙ ap some was)) in
    let c = new_credential d.id ctx.fresh_serial actor ctx.now in
    let issued =
      credential_of-new d.id ctx.fresh_serial actor ctx.now t row none_at_t
        (Marked-get_device m.2 found) m.2.status in
    let q =
      queue_first_passport-Alike d.status ctx.job_id d.id
        (record t { credentials = c ∷ t.credentials }) in
    rw (found, opens d was, free, m.1, issued, q.1)
      (
        _,
        _,
        row,
        c,
        refl,
        m.2.keeps d,
        approved-validates env d db t q.0 m.2 ctx.fresh_serial actor ctx.now later found q.2 reads
            _,
      )
