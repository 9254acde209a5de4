-- ===== src/Store/Backed.antt =====
-- The invariant of device_credentials: a credential that is not revoked belongs to an approved
-- device. No constraint of the schema states it; the triggers and the handlers have to keep it.
use rustdesk_managed_directo.Common.{
  ℕ, String, ◌≡◌, refl, sym, ◌∙◌, Bool, false, not, ◌&&◌, none, some, List, ◌==◌, arith, inl, inr,
  All, All-mono, All-update_where, update_where, Bool-cases, is_null,
}
use rustdesk_managed_directo.Http.{◌>>=◌}
use rustdesk_managed_directo.Http.Keeps.{Ends}
use rustdesk_managed_directo.Store.{Status, approved, Device, Credential, Db, is_approved}
use rustdesk_managed_directo.Store.Queries.{get_device}
use rustdesk_managed_directo.Store.Triggers.{
  same_status, may_change_status, update_status, insert_credential,
}
use rustdesk_managed_directo.Store.View.{status_in, KeepsId, status_in-set, same_status-eq}

abbrev pub Backed : List Device → Credential → Type 0
Backed devices c = c.revoked_at ≡ none → status_in devices c.device_id ≡ some approved

abbrev pub CredentialsBacked : Db → Type 0
CredentialsBacked db = All (Backed db.devices) db.credentials

-- A statement that leaves every status alone keeps the invariant.
pub Backed-devices :
    (old new : List Device)
    → ((k : ℕ) → status_in new k ≡ status_in old k)
    → (credentials : List Credential) → All (Backed old) credentials
    → All (Backed new) credentials
Backed-devices old new h = All-mono (λ c b r. h c.device_id ∙ b r)

-- Revoking more credentials keeps it.
pub Backed-revoke :
    (devices : List Device) (p : Credential → Bool) (f : Credential → Credential)
    → ((c : Credential) → (n : ℕ) × ((f c).revoked_at ≡ some n))
    → (credentials : List Credential) → All (Backed devices) credentials
    → All (Backed devices) (update_where p f credentials)
Backed-revoke devices p f h =
    All-update_where p f (λ c b e r. let w = h c in let q : some w.0 ≡ none = sym w.1 ∙ r in cc q)
      (λ c b e. b)

module _ (devices : List Device) (j : ℕ) (to : Status) (f : Device → Device) (keeps : KeepsId f)
    (sets : (d : Device) → (f d).status ≡ to) where
  abbrev after : List Device
  after = update_where (λ d. d.id == j) f devices

  -- After its own credentials are revoked, the status of the device may become anything.
  Backed-leave :
      (g : Credential → Credential)
      → ((c : Credential) → (n : ℕ) × ((g c).revoked_at ≡ some n))
      → (credentials : List Credential) → All (Backed devices) credentials
      → All
          (Backed after)
          (update_where (λ c. c.device_id == j && is_null c.revoked_at) g credentials)
  Backed-leave g h =
      All-update_where _ g (λ c b e r. let w = h c in let q : some w.0 ≡ none = sym w.1 ∙ r in cc q)
        λ c b e r. ground (arith, status_in-set devices j c.device_id f to keeps sets, b r)

  -- A device that was not approved has no active credential, so its status may change.
  Backed-enter :
      (from : Status)
      → status_in devices j ≡ some from
      → (is_approved from && not (is_approved to)) ≡ false
      → (credentials : List Credential) → All (Backed devices) credentials
      → All (Backed after) credentials
  Backed-enter from was h =
      All-mono λ c b r. ground (arith, status_in-set devices j c.device_id f to keeps sets, b r)

trigger_sets : (n : ℕ) → (m : ℕ) × (some n ≡ some m)
trigger_sets n = (n, refl)

not_leaving : (from to : Status) → from ≡ to → (is_approved from && not (is_approved to)) ≡ false
not_leaving from to e = ground arith

pub update_status-Backed :
    (j now : ℕ) (from to : Status) (reason : String) (actor : ℕ) (change : Device → Device)
    → KeepsId change
    → (db : Db) → status_in db.devices j ≡ some from
    → CredentialsBacked db
    → Ends (λ _ t. CredentialsBacked t) (update_status j now from to reason actor change db)
unfolding update_status ◌>>=◌
update_status-Backed j now from to reason actor change keeps db was backed =
    elim (Bool-cases (same_status from to)) [
      | inl same ↦ rw same (
          Backed-enter db.devices j to _ keeps (λ d. refl) from was
            (not_leaving from to (same_status-eq from to same)) db.credentials backed)
      | inr moves ↦ rw moves (elim (Bool-cases (may_change_status db.accounts actor)) [
        | inr no_actor ↦ rw no_actor tt
        | inl allowed ↦ rw allowed (elim (Bool-cases (is_approved from && not (is_approved to))) [
          | inl leaves ↦ rw leaves (
              Backed-leave db.devices j to _ keeps (λ d. refl) _ (λ c. trigger_sets now)
                db.credentials backed)
          | inr stays ↦ rw stays (
              Backed-enter db.devices j to _ keeps (λ d. refl) from was stays db.credentials backed)
        ])
      ])
    ]

pub insert_credential-Backed :
    (c : Credential) (db : Db)
    → CredentialsBacked db
    → Ends (λ _ t. CredentialsBacked t) (insert_credential c db)
unfolding insert_credential status_in get_device
insert_credential-Backed c db backed = ground (arith, backed)
