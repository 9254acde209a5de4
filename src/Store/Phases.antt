-- ===== src/Store/Phases.antt =====
-- What a proof about every handler has to supply. A handler reads in a first phase, in which `Pre`
-- holds, makes at most one change of a device's row, and goes on in a second phase, in which `Post`
-- holds. `Phases` lists the statements that may stand at each place, with what the handler has
-- checked before them; the modules named Walk follow the handlers once, for every `Pre` and `Post`.
use rustdesk_managed_directo.Common.{
  ℕ, String, ◌≡◌, Bool, true, false, Option, none, some, ◌==◌, update_where,
}
use rustdesk_managed_directo.Http.{modify}
use rustdesk_managed_directo.Http.Keeps.{Hoare, Keeps}
use rustdesk_managed_directo.Store.{Status, pending, Device, Credential, Db, reserves_name}
use rustdesk_managed_directo.Store.Env.{Env}
use rustdesk_managed_directo.Store.Queries.{get_device, name_taken}
use rustdesk_managed_directo.Store.Triggers.{update_status, insert_device}
use rustdesk_managed_directo.Store.View.{KeepsId}
use rustdesk_managed_directo.Store.Keyed.{Keyed}
use rustdesk_managed_directo.Store.Moves.{Move}
use rustdesk_managed_directo.Store.Rules.{Locked}
use rustdesk_managed_directo.Lifecycle.{credential_of}

-- The row is locked, and no other device reserves the name.
abbrev pub Ready : Env → (Db → Type 0) → Device → Option String → Db → Type 0
Ready env P d name s =
    P s × (get_device s.devices d.id ≡ some d) × (name_taken env name (some d.id) s.devices ≡ false)

-- An UPDATE that sets neither the id nor the status nor the friendly name.
pub record Touches (f : Device → Device) : Type 0 where
  pub id : KeepsId f
  pub status : (d : Device) → (f d).status ≡ d.status
  pub friendly_name : (d : Device) → (f d).friendly_name ≡ d.friendly_name

pub record Phases (env : Env) (Pre Post : Db → Type 0) : Type 0 where
  pub keyed : (s : Db) → Pre s → Keyed s.devices
  pub weaken : (s : Db) → Pre s → Post s
  -- Both look at devices and credentials alone.
  pub frame_pre : (s t : Db) → t.devices ≡ s.devices → t.credentials ≡ s.credentials → Pre s → Pre t
  pub frame_post :
      (s t : Db) → t.devices ≡ s.devices → t.credentials ≡ s.credentials → Post s → Post t
  pub revoke :
      (p : Credential → Bool) (f : Credential → Credential)
      → ((c : Credential) → (n : ℕ) × ((f c).revoked_at ≡ some n))
      → (s : Db) → Pre s
      → Pre (record s { credentials = update_where p f s.credentials })
  pub set_plain :
      (d : Device) (now : ℕ) (to : Status) (reason : String) (actor : ℕ)
      → Move (some d.status) (some to)
      → (reserves_name to ≡ true → reserves_name d.status ≡ true)
      → Hoare
          (Locked Pre d.id d)
          (update_status d.id now d.status to reason actor (λ e. e))
          (λ _ t. Post t)
  pub set_named :
      (d : Device) (now : ℕ) (to : Status) (reason : String) (actor : ℕ) (f : Device → Device)
      (name : Option String)
      → KeepsId f
      → ((f d).friendly_name ≡ name)
      → Move (some d.status) (some to)
      → Hoare
          (Ready env Pre d name)
          (update_status d.id now d.status to reason actor f)
          (λ _ t. Post t)
  pub rename :
      (d : Device) (name : Option String)
      → Hoare
          (Ready env Pre d name)
          (modify (λ s. record s {
            devices =
                update_where (λ e. e.id == d.id) (λ e. record e { friendly_name = name }) s.devices;
          }))
          (λ _ t. Post t)
  pub touch :
      (j : ℕ) (f : Device → Device)
      → Touches f
      → (s : Db) → Pre s
      → Post (record s { devices = update_where (λ d. d.id == j) f s.devices })
  pub insert :
      (d : Device)
      → d.status ≡ pending
      → Hoare
          (λ s. Pre s × (name_taken env d.friendly_name none s.devices ≡ false))
          (insert_device d)
          (λ _ t. Post t)
  pub issue : (id serial actor now : ℕ) → Keeps Post (credential_of id serial actor now)
