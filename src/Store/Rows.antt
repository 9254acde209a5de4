-- ===== src/Store/Rows.antt =====
-- What the statements that the triggers guard leave of the table of devices.
use rustdesk_managed_directo.Common.{
  ℕ, String, ◌≡◌, refl, Option, none, List, ◌∷◌, ◌==◌, arith, inl, inr, if◌then◌else◌, some,
  update_where, Bool-cases,
}
use rustdesk_managed_directo.Http.{Outcome, done, raised, ◌>>=◌}
use rustdesk_managed_directo.Http.Keeps.{Ends, Keeps, Hoare-bind, Keeps-gets, Keeps-pure}
use rustdesk_managed_directo.Store.{Status, Device, Credential, Db}
use rustdesk_managed_directo.Store.Queries.{get_device}
use rustdesk_managed_directo.Store.Triggers.{
  same_status, may_change_status, update_status, insert_device, insert_credential,
}
use rustdesk_managed_directo.Store.View.{KeepsId, status_in, status_in-set}
use rustdesk_managed_directo.Lifecycle.{credential_of, issue_credential}

-- An UPDATE of the row with the id that sets the status, and the other columns as `change` does.
pub record SetsStatus (id : ℕ) (to : Status) (change : Device → Device) (old new : List Device)
    : Type 0 where
  pub row : Device → Device
  pub keeps : KeepsId row
  pub status : (d : Device) → (row d).status ≡ to
  pub friendly_name : (d : Device) → (row d).friendly_name ≡ (change d).friendly_name
  pub devices : new ≡ update_where (λ e. e.id == id) row old

pub update_status-SetsStatus :
    (id now : ℕ) (from to : Status) (reason : String) (actor : ℕ) (change : Device → Device)
    → KeepsId change
    → (s : Db)
    → Ends
        (λ _ t. SetsStatus id to change s.devices t.devices)
        (update_status id now from to reason actor change s)
unfolding update_status ◌>>=◌
update_status-SetsStatus id now from to reason actor change keeps s =
    elim (Bool-cases (same_status from to)) [
      | inl same ↦ rw same (record {
        row = _;
        keeps = keeps;
        status = λ d. refl;
        friendly_name = λ d. refl;
        devices = refl;
      })
      | inr moves ↦ rw moves (elim (Bool-cases (may_change_status s.accounts actor)) [
        | inr no_actor ↦ rw no_actor tt
        | inl allowed ↦ rw allowed (record {
          row = _;
          keeps = keeps;
          status = λ d. refl;
          friendly_name = λ d. refl;
          devices = refl;
        })
      ])
    ]

-- The statuses after it.
pub SetsStatus-status_in :
    {id : ℕ} {to : Status} {change : Device → Device} {old new : List Device}
    → SetsStatus id to change old new
    → (s : Status) → status_in old id ≡ some s
    → (k : ℕ) → status_in new k ≡ (if id == k then some to else status_in old k)
SetsStatus-status_in {id} {to} {change} {old} {new} h s was k =
    rw (h.devices, status_in-set old id k h.row to h.keeps h.status) (ground (arith, was))

-- INSERT of a device adds the row.
pub insert_device-devices :
    (d : Device) (s : Db)
    → Ends
        (λ _ t. (t.devices ≡ d ∷ s.devices) × (get_device s.devices d.id ≡ none))
        (insert_device d s)
unfolding insert_device get_device
insert_device-devices d s = ground arith

insert_credential-devices :
    (c : Credential) (s : Db) → Ends (λ _ t. t.devices ≡ s.devices) (insert_credential c s)
unfolding insert_credential
insert_credential-devices c s = ground arith

same_devices :
    {A : Type 0} (P : List Device → Type 0) (s : Db) (o : Outcome Db A)
    → P s.devices
    → Ends (λ _ t. t.devices ≡ s.devices) o
    → Ends (λ _ t. P t.devices) o
same_devices P s (done a t) h e = rw e h
same_devices P s (raised e) h r = tt

issue_credential-devices :
    (P : List Device → Type 0) (o : Option Credential) (id serial actor now : ℕ)
    → Keeps (λ s. P s.devices) (issue_credential o id serial actor now)
unfolding issue_credential
issue_credential-devices P (some c) id serial actor now = Keeps-pure c
issue_credential-devices P none id serial actor now =
    Hoare-bind _ _ (record { at = λ s h. same_devices P s _ h (insert_credential-devices _ s) })
      λ _. Keeps-pure _

-- Issuing a credential leaves the table of devices alone.
pub credential_of-devices :
    (P : List Device → Type 0) (id serial actor now : ℕ)
    → Keeps (λ s. P s.devices) (credential_of id serial actor now)
unfolding credential_of
credential_of-devices P id serial actor now =
    Hoare-bind _ _ (Keeps-gets _) λ o. issue_credential-devices P o id serial actor now
