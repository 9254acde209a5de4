-- ===== src/Lifecycle/Approving.antt =====
-- `approve_device` on a pending device, statement by statement.
use rustdesk_managed_directo.Common.{
  ℕ, String, ◌≡◌, refl, Bool, true, false, not, ◌&&◌, ◌||◌, Option, none, some, List, [], ◌∷◌, ◌==◌,
  arith, inl, inr, str_eq, update_where, latest_where, Bool-cases, All, All-mono,
}
use rustdesk_managed_directo.Http.{done, ◌>>=◌}
use rustdesk_managed_directo.Store.{
  Status, pending, approved, Device, Db, is_approved, is_blocked, is_revoked,
}
use rustdesk_managed_directo.Store.Queries.{
  get_device, is_active_credential, active_device_credential, sec8_enqueue, sec8_mode,
}
use rustdesk_managed_directo.Store.Triggers.{may_change_status, update_status, insert_credential}
use rustdesk_managed_directo.Store.View.{KeepsId, status_in, get_device-update}
use rustdesk_managed_directo.Store.Sound.{Sound}
use rustdesk_managed_directo.Lifecycle.{
  mark_approved, new_credential, issue_credential, credential_of, has_key, queue_first_passport,
}

latest_where-none {ℓ} :
    {A : Type ℓ} (key : A → ℕ) (p : A → Bool) (xs : List A)
    → All (λ x. p x ≡ false) xs
    → latest_where key p xs ≡ none
unfolding latest_where
latest_where-none key p [] h = refl
latest_where-none key p (x ∷ xs) h = rw (latest_where-none key p xs h.1, h.0) refl

-- A device that is not approved has no active credential.
pub none_active :
    (db : Db) (d : Device) (now : ℕ)
    → Sound db
    → status_in db.devices d.id ≡ some pending
    → active_device_credential d.id now db.credentials ≡ none
unfolding active_device_credential is_active_credential
none_active db d now h was =
    latest_where-none _ _ db.credentials
      (All-mono (λ c b. ground (arith, b, was)) db.credentials h.1)

-- The tables after a pending device was marked approved.
pub record Marked (d : Device) (old new : Db) : Type 0 where
  pub row : Device → Device
  pub keeps : KeepsId row
  pub status : (row d).status ≡ approved
  pub rustdesk_id : (row d).rustdesk_id ≡ d.rustdesk_id
  pub key : (row d).device_public_key ≡ d.device_public_key
  pub devices : new.devices ≡ update_where (λ e. e.id == d.id) row old.devices
  pub credentials : new.credentials ≡ old.credentials
  pub instance_id : new.instance_id ≡ old.instance_id

pub mark_approved-Marked :
    (d : Device) (name : Option String) (reason : String) (actor now : ℕ) (db : Db)
    → d.status ≡ pending
    → may_change_status db.accounts actor ≡ true
    → (t : Db) × (mark_approved d name reason actor now db ≡ done tt t) × Marked d db t
unfolding mark_approved update_status ◌>>=◌
mark_approved-Marked d name reason actor now db was may =
    rw (was, may)
      (
        _,
        refl,
        record {
          row = _;
          keeps = λ e. refl;
          status = refl;
          rustdesk_id = refl;
          key = refl;
          devices = refl;
          credentials = refl;
          instance_id = refl;
        },
      )

pub Marked-get_device :
    {d : Device} {old new : Db} (m : Marked d old new)
    → get_device old.devices d.id ≡ some d
    → get_device new.devices d.id ≡ some (m.row d)
Marked-get_device {d} {old} {new} m row =
    rw (m.devices, get_device-update old.devices d.id d.id m.row m.keeps, row) (ground arith)

-- A device without an active credential gets a new one.
pub credential_of-new :
    (id serial actor now : ℕ) (db : Db) (d : Device)
    → active_device_credential id now db.credentials ≡ none
    → get_device db.devices id ≡ some d
    → d.status ≡ approved
    → credential_of id serial actor now db
      ≡ done
          (new_credential id serial actor now)
          (record db { credentials = new_credential id serial actor now ∷ db.credentials })
unfolding credential_of issue_credential insert_credential get_device ◌>>=◌
credential_of-new id serial actor now db d no_credential row was = rw (no_credential, row, was) refl

-- Two states with the same devices, credentials and instance.
pub record Alike (old new : Db) : Type 0 where
  pub devices : new.devices ≡ old.devices
  pub credentials : new.credentials ≡ old.credentials
  pub instance_id : new.instance_id ≡ old.instance_id

pub queue_first_passport-Alike :
    (s : Status) (job id : ℕ) (db : Db)
    → (t : Db) × (queue_first_passport s job id db ≡ done tt t) × Alike db t
unfolding queue_first_passport sec8_enqueue ◌>>=◌
queue_first_passport-Alike s job id db =
    elim (Bool-cases (
      not (is_approved s) && not (str_eq (sec8_mode db.settings) "off") && has_key id db.devices)) [
        | inl on ↦
            rw on (_, refl, record { devices = refl; credentials = refl; instance_id = refl })
        | inr off ↦
            rw off (_, refl, record { devices = refl; credentials = refl; instance_id = refl })
      ]

pub opens : (d : Device) → d.status ≡ pending → (is_blocked d.status || is_revoked d.status) ≡ false
opens d was = rw was refl
