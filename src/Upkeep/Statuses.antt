-- ===== src/Upkeep/Statuses.antt =====
-- Which moves of a device's status one action can make.
use rustdesk_managed_directo.Common.{
  ℕ, ◌≡◌, refl, ◌∙◌, sym, true, false, Bool, ◌||◌, Option, none, some, List, ◌==◌, arith,
  if◌then◌else◌,
}
use rustdesk_managed_directo.Store.{
  Status, pending, approved, denied, blocked, revoked, Device, Db, is_blocked, is_revoked,
}
use rustdesk_managed_directo.Store.Env.{Env}
use rustdesk_managed_directo.Store.Queries.{get_device}
use rustdesk_managed_directo.Store.View.{
  status_in, status_in-update, status_in-get_device, on_device,
}
use rustdesk_managed_directo.Store.Keyed.{Keyed}
use rustdesk_managed_directo.Store.Moves.{Move, stay}
use rustdesk_managed_directo.Lifecycle.{Context}
use rustdesk_managed_directo.System.Moves.{handle-Moves}
use rustdesk_managed_directo.Upkeep.{Action, request, sign, heartbeat, delete, act}
use rustdesk_managed_directo.Upkeep.Rows.{
  without, get_device-without, seen-id, seen-status, sign-walk, heartbeat-walk, delete-walk,
}

-- A move, or the end of a record that was blocked or revoked.
pub data Step : Option Status → Option Status → Type 0 where
  moves : {a b : Option Status} → Move a b → Step a b
  deleted_blocked : Step (some blocked) none
  deleted_revoked : Step (some revoked) none

abbrev pub Steps : List Device → List Device → Type 0
Steps old new = (k : ℕ) → Step (status_in old k) (status_in new k)

leaves : (s : Status) → (is_blocked s || is_revoked s) ≡ true → Step (some s) none
leaves blocked h = deleted_blocked
leaves revoked h = deleted_revoked
leaves pending h = cc
leaves approved h = cc
leaves denied h = cc

status_in-without :
    (j k : ℕ) (devices : List Device)
    → status_in (without j devices) k ≡ (if j == k then none else status_in devices k)
unfolding status_in
status_in-without j k devices = rw (get_device-without j k devices) (go (j == k))
  where
    go :
        (b : Bool)
        → on_device (λ d. d.status) (if b then none else get_device devices k)
          ≡ (if b then none else on_device (λ d. d.status) (get_device devices k))
    go true = refl
    go false = refl

module _ (old : List Device) where
  abbrev Same : List Device → Type 0
  Same l = (k : ℕ) → status_in l k ≡ status_in old k

  Same-Steps : (l : List Device) → Same l → Steps old l
  Same-Steps l h k = rw (h k) (moves (stay _))

  deleted-Steps :
      (id : ℕ) (d : Device) (l : List Device)
      → Same l
      → get_device l id ≡ some d
      → (is_blocked d.status || is_revoked d.status) ≡ true
      → Steps old (without id l)
  deleted-Steps id d l h row out k = rw (status_in-without id k l, h k) (go (id == k) refl)
    where
      go : (b : Bool) → (id == k) ≡ b → Step (status_in old k) (if b then none else status_in old k)
      go false e = moves (stay _)
      go true e =
          let same : id ≡ k = ground arith in
          let was : status_in old k ≡ some d.status =
            sym (h k) ∙ status_in-get_device l k {d = d} (rw (← same) row) in
          rw was (leaves d.status out)

-- Where every device row is the one that its id finds, one action leaves the status of every device as
-- it was or makes one of these steps, whatever its outcome: no record to pending, pending to approved,
-- denied or blocked, approved to blocked or revoked, denied to approved or pending, blocked to pending,
-- blocked or revoked to no record. An action is one of System's requests, the check of an operator's
-- token, a heartbeat, or the deletion of a device.
pub act-Steps :
    (env : Env) (ctx : Context) (a : Action) (db : Db)
    → Keyed db.devices
    → Steps db.devices (act env ctx a db).devices
unfolding act
act-Steps env ctx (request r) db keyed = λ k. moves (handle-Moves env ctx r db keyed k)
act-Steps env ctx (sign token) db keyed =
    sign-walk (Same db.devices) (Steps db.devices) (Same-Steps db.devices) env ctx token db
      (λ k. refl)
act-Steps env ctx (heartbeat credential payload) db keyed =
    heartbeat-walk (Same db.devices) (Steps db.devices) (Same-Steps db.devices) env ctx credential
      payload db
      (λ d l h. Same-Steps db.devices _ (λ k.
        status_in-update l d.id k _ (seen-id env ctx payload _) (seen-status env ctx payload _)
        ∙ h k))
      (λ k. refl)
act-Steps env ctx (delete o id reason) db keyed =
    delete-walk (Same db.devices) (Steps db.devices) (Same-Steps db.devices) env ctx o id reason db
      (λ d l h row out. deleted-Steps db.devices id d l h row out) (λ k. refl)
