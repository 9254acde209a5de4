-- ===== src/Store/Sound.antt =====
-- What every handler keeps of the tables of devices and credentials.
use rustdesk_managed_directo.Common.{
  ℕ, String, ◌≡◌, sym, subst, Bool, Option, none, some, List, ◌∷◌, ◌==◌, ==_iff, arith, inl, inr,
  All, All-mono, update_where, find_where, Bool-cases, Option-cases,
}
use rustdesk_managed_directo.Http.{◌>>=◌}
use rustdesk_managed_directo.Http.Keeps.{Ends, Hoare, Keeps}
use rustdesk_managed_directo.Store.{
  Status, pending, Device, Credential, Audit, JobKind, EnrollmentEvent, Db, is_approved,
}
use rustdesk_managed_directo.Store.Queries.{
  get_device, write_audit, sec8_enqueue, write_enrollment_event,
}
use rustdesk_managed_directo.Store.Triggers.{
  update_status, insert_device, insert_credential, same_status, may_change_status,
}
use rustdesk_managed_directo.Store.View.{
  KeepsId, status_in, status_in-get_device, status_in-update, id-get_device,
}
use rustdesk_managed_directo.Store.Keyed.{Keyed, Keyed-update, Keyed-insert}
use rustdesk_managed_directo.Store.Backed.{
  Backed, CredentialsBacked, Backed-devices, Backed-revoke, update_status-Backed,
  insert_credential-Backed,
}
use rustdesk_managed_directo.Store.Rules.{
  Locked, IgnoresLogs, Keeps-write_audit, Keeps-write_enrollment_event, Keeps-sec8_enqueue,
}

-- Every device is the one that its id finds, and a credential that is not revoked belongs to an
-- approved device.
abbrev pub Sound : Db → Type 0
Sound db = Keyed db.devices × CredentialsBacked db

pub Sound-IgnoresLogs : IgnoresLogs Sound
Sound-IgnoresLogs = record { audits = λ db l h. h; events = λ db l h. h; queued = λ db l h. h }

pub audit-Sound : (a : Audit) → Keeps Sound (write_audit a)
audit-Sound = Keeps-write_audit Sound-IgnoresLogs

pub event-Sound : (e : EnrollmentEvent) → Keeps Sound (write_enrollment_event e)
event-Sound = Keeps-write_enrollment_event Sound-IgnoresLogs

pub enqueue-Sound :
    (job : ℕ) (kind : JobKind) (id : ℕ) (idk prot : Option String)
    → Keeps Sound (sec8_enqueue job kind id idk prot)
enqueue-Sound = Keeps-sec8_enqueue Sound-IgnoresLogs

pub ruleset log_rules = (audit-Sound, event-Sound, enqueue-Sound)

-- The id of a locked row.
pub relock :
    (id : ℕ) (d : Device) (devices : List Device)
    → get_device devices id ≡ some d
    → get_device devices d.id ≡ some d
relock id d devices h =
    subst (λ k. get_device devices k ≡ some d) (sym (id-get_device devices id h)) h

update_status-Sound :
    (d : Device) (now : ℕ) (to : Status) (reason : String) (actor : ℕ) (change : Device → Device)
    → KeepsId change
    → (db : Db) → Sound db
    → Ends (λ _ t. CredentialsBacked t) (update_status d.id now d.status to reason actor change db)
    → Ends (λ _ t. Sound t) (update_status d.id now d.status to reason actor change db)
unfolding update_status ◌>>=◌
update_status-Sound d now to reason actor change keeps db h =
    elim (Bool-cases (same_status d.status to)) [
      | inl same ↦ rw same (λ b. (Keyed-update db.devices d.id _ keeps h.0, b))
      | inr moves ↦ rw moves (elim (Bool-cases (may_change_status db.accounts actor)) [
        | inr no_actor ↦ rw no_actor (λ b. tt)
        | inl allowed ↦ rw allowed (λ b. (Keyed-update db.devices d.id _ keeps h.0, b))
      ])
    ]

pub set_status-Sound :
    (id : ℕ) (d : Device) (now : ℕ) (to : Status) (reason : String) (actor : ℕ)
    (change : Device → Device)
    → KeepsId change
    → Hoare
        (Locked Sound id d)
        (update_status d.id now d.status to reason actor change)
        (λ _ t. Sound t)
set_status-Sound id d now to reason actor change keeps = record {
  at = λ s h. update_status-Sound d now to reason actor change keeps s h.0 (
      update_status-Backed d.id now d.status to reason actor change keeps s
        (status_in-get_device s.devices d.id (relock id d s.devices h.1)) h.0.1);
}

-- A statement that sets columns of one device other than its id and its status.
pub update_device-Sound :
    (j : ℕ) (f : Device → Device)
    → KeepsId f
    → ((d : Device) → (f d).status ≡ d.status)
    → (db : Db) → Sound db
    → Sound (record db { devices = update_where (λ d. d.id == j) f db.devices })
update_device-Sound j f keeps same db h = (
  Keyed-update db.devices j f keeps h.0,
  Backed-devices db.devices _ (λ k. status_in-update db.devices j k f keeps same) db.credentials
      h.1,
)

-- A statement that revokes credentials.
pub revoke-Sound :
    (p : Credential → Bool) (f : Credential → Credential)
    → ((c : Credential) → (n : ℕ) × ((f c).revoked_at ≡ some n))
    → (db : Db) → Sound db
    → Sound (record db { credentials = update_where p f db.credentials })
revoke-Sound p f revokes db h = (h.0, Backed-revoke db.devices p f revokes db.credentials h.1)

insert_credential-keeps :
    (c : Credential) (db : Db)
    → Sound db
    → Ends (λ _ t. CredentialsBacked t) (insert_credential c db)
    → Ends (λ _ t. Sound t) (insert_credential c db)
unfolding insert_credential
insert_credential-keeps c db h =
    elim (Option-cases (find_where (λ d. d.id == c.device_id) db.devices)) [
      | inl none_found ↦ rw (none_found, insert_credential) (λ b. tt)
      | inr (d, was) ↦
          rw (was, insert_credential)
            (elim (Bool-cases (is_approved d.status)) [
              | inl e ↦ rw e (λ b. (h.0, b))
              | inr e ↦ rw e (λ b. tt)
            ])
    ]

pub insert_credential-Sound : (c : Credential) → Keeps Sound (insert_credential c)
insert_credential-Sound c = record {
  at = λ s h. insert_credential-keeps c s h (insert_credential-Backed c s h.1);
}

Backed-insert :
    (devices : List Device) (d : Device)
    → get_device devices d.id ≡ none
    → (credentials : List Credential) → All (Backed devices) credentials
    → All (Backed (d ∷ devices)) credentials
unfolding status_in get_device find_where
Backed-insert devices d fresh = All-mono λ c b r. ground (arith, b r, (==_iff d.id c.device_id).0)

pub insert_device-Sound : (d : Device) → Keeps Sound (insert_device d)
unfolding insert_device get_device
insert_device-Sound d = record {
  at = λ s h. elim (Option-cases (find_where (λ e. e.id == d.id) s.devices)) [
    | inr (e, was) ↦ rw (was, insert_device) tt
    | inl fresh ↦
        rw (fresh, insert_device)
          (elim (Bool-cases (same_status d.status pending)) [
            | inr e ↦ rw e tt
            | inl e ↦ rw e (
              Keyed-insert s.devices d fresh h.0,
              Backed-insert s.devices d fresh s.credentials h.1,
            )
          ])
  ];
}
