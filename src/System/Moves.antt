-- ===== src/System/Moves.antt =====
-- Which moves of a device's status one request can make, and where any number of them cannot lead.
use rustdesk_managed_directo.Common.{
  ℕ, ◌≡◌, refl, sym, ◌∙◌, subst, Bool, true, false, Option, none, some, List, [], ◌∷◌, ◌==◌, arith,
  if◌then◌else◌, update_where,
}
use rustdesk_managed_directo.Http.{Outcome, done, raised}
use rustdesk_managed_directo.Http.Keeps.{Ends, Hoare, Hoare-modify, Hoare-pre}
use rustdesk_managed_directo.Store.{Status, pending, revoked, Device, Db}
use rustdesk_managed_directo.Store.Env.{Env}
use rustdesk_managed_directo.Store.Queries.{get_device}
use rustdesk_managed_directo.Store.Triggers.{update_status, insert_device}
use rustdesk_managed_directo.Store.View.{
  KeepsId, status_in, status_in-get_device, status_in-update, status_in-insert, status_in-none,
}
use rustdesk_managed_directo.Store.Keyed.{Keyed}
use rustdesk_managed_directo.Store.Moves.{Move, stay, enrolled}
use rustdesk_managed_directo.Store.Rows.{
  SetsStatus, update_status-SetsStatus, SetsStatus-status_in, insert_device-devices,
  credential_of-devices,
}
use rustdesk_managed_directo.Store.Rules.{Locked}
use rustdesk_managed_directo.Store.Phases.{Phases}
use rustdesk_managed_directo.Store.Sound.{Sound}
use rustdesk_managed_directo.Lifecycle.{Context}
use rustdesk_managed_directo.System.{Request, handle, run}
use rustdesk_managed_directo.System.Walk.{handle-walk}
use rustdesk_managed_directo.System.Sound.{Sound-Phases}

-- Every device has the status it had, or one that a move from it gives.
abbrev pub Moves : List Device → List Device → Type 0
Moves old new = (k : ℕ) → Move (status_in old k) (status_in new k)

module _ (old : List Device) where
  abbrev Before : Db → Type 0
  Before s = Keyed s.devices × ((k : ℕ) → status_in s.devices k ≡ status_in old k)

  abbrev After : Db → Type 0
  After s = Moves old s.devices

  Before-After : (s : Db) → Before s → After s
  Before-After s h k = rw (h.1 k) (stay _)

  set-Moves :
      (d : Device) (to : Status) (change : Device → Device) (s : Db) (new : List Device)
      → Locked Before d.id d s
      → Move (some d.status) (some to)
      → SetsStatus d.id to change s.devices new
      → Moves old new
  set-Moves d to change s new h m sets k =
      rw (SetsStatus-status_in sets d.status was k, h.0.1 k) (go (d.id == k) refl)
    where
      was : status_in s.devices d.id ≡ some d.status
      was = status_in-get_device s.devices d.id h.1

      go :
          (b : Bool)
          → (d.id == k) ≡ b
          → Move (status_in old k) (if b then some to else status_in old k)
      go false e = stay _
      go true e =
          let same : d.id ≡ k = ground arith in
          let now : status_in old k ≡ some d.status = ground (arith, h.0.1 k, was) in rw now m

  update_status-Moves :
      (d : Device) (now : ℕ) (to : Status) (actor_reason : _) (actor : ℕ) (change : Device → Device)
      → KeepsId change
      → Move (some d.status) (some to)
      → Hoare
          (Locked Before d.id d)
          (update_status d.id now d.status to actor_reason actor change)
          (λ _ t. After t)
  update_status-Moves d now to reason actor change keeps m = record {
    at =
        λ s h. go s h _ (update_status-SetsStatus d.id now d.status to reason actor change keeps s);
  }
    where
      go :
          (s : Db)
          → Locked Before d.id d s
          → (o : Outcome Db (Unit {0}))
          → Ends (λ _ t. SetsStatus d.id to change s.devices t.devices) o
          → Ends (λ _ t. After t) o
      go s h (done a t) sets = set-Moves d to change s t.devices h m sets
      go s h (raised e) sets = tt

  insert-Moves :
      (d : Device) (s : Db) (new : List Device)
      → Before s
      → d.status ≡ pending
      → new ≡ d ∷ s.devices
      → get_device s.devices d.id ≡ none
      → Moves old new
  insert-Moves d s new h is_new e fresh k =
      rw (e, status_in-insert d s.devices k, h.1 k) (go (d.id == k) refl)
    where
      go :
          (b : Bool)
          → (d.id == k) ≡ b
          → Move (status_in old k) (if b then some d.status else status_in old k)
      go false e = stay _
      go true e =
          let same : d.id ≡ k = ground arith in
          let was : status_in old k ≡ none =
            sym (h.1 k) ∙ status_in-none s.devices k (rw (← same) fresh) in
          rw (was, is_new) enrolled

  insert_device-Moves :
      (d : Device) → d.status ≡ pending → Hoare Before (insert_device d) (λ _ t. After t)
  insert_device-Moves d is_new = record { at = λ s h. go s h _ (insert_device-devices d s) }
    where
      go :
          (s : Db)
          → Before s
          → (o : Outcome Db (Unit {0}))
          → Ends (λ _ t. (t.devices ≡ d ∷ s.devices) × (get_device s.devices d.id ≡ none)) o
          → Ends (λ _ t. After t) o
      go s h (done a t) r = insert-Moves d s t.devices h is_new r.0 r.1
      go s h (raised e) r = tt

  touch-Before :
      (j : ℕ) (f : Device → Device)
      → KeepsId f
      → ((d : Device) → (f d).status ≡ d.status)
      → (s : Db) → Before s
      → Moves old (update_where (λ d. d.id == j) f s.devices)
  touch-Before j f keeps same s h k =
      rw (status_in-update s.devices j k f keeps same, h.1 k) (stay _)

  Moves-Phases : (env : Env) → Phases env Before After
  Moves-Phases env = record {
    keyed = λ s h. h.0;
    weaken = Before-After;
    frame_pre = λ s t d c h. rw d h;
    frame_post = λ s t d c h. rw d h;
    revoke = λ p f g s h. h;
    set_plain = λ d now to reason actor m r.
        update_status-Moves d now to reason actor (λ e. e) (λ e. refl) m;
    set_named = λ d now to reason actor f name keeps same m.
        Hoare-pre _ (λ s h. (h.0, h.1)) (update_status-Moves d now to reason actor f keeps m);
    rename = λ d name. Hoare-modify _ λ s h. touch-Before d.id _ (λ e. refl) (λ e. refl) s h.0;
    touch = λ j f t s h. touch-Before j f t.id t.status s h;
    insert = λ d same. Hoare-pre _ (λ s h. h.0) (insert_device-Moves d same);
    issue = credential_of-devices (Moves old);
  }

-- One request, whatever its outcome, leaves the status of every device as it was or makes one of
-- these moves: no record to pending, pending to approved, denied or blocked, approved to blocked or
-- revoked, denied to approved or pending, blocked to pending.
pub handle-Moves :
    (env : Env) (ctx : Context) (r : Request) (db : Db)
    → Keyed db.devices
    → Moves db.devices (handle env ctx r db).devices
handle-Moves env ctx r db h = handle-walk (Moves-Phases db.devices env) ctx r db (h, λ k. refl)

stays_revoked : {s : Option Status} → Move (some revoked) s → s ≡ some revoked
stays_revoked (stay _) = refl

-- No requests bring a revoked device back: its status is revoked after any sequence of them.
pub run-revoked :
    (env : Env) (requests : List (Context × Request)) (db : Db) (k : ℕ)
    → Sound db
    → status_in db.devices k ≡ some revoked
    → status_in (run env requests db).devices k ≡ some revoked
unfolding run
run-revoked env [] db k h was = was
run-revoked env ((ctx, r) ∷ rest) db k h was =
    run-revoked env rest _ k (handle-walk (Sound-Phases env) ctx r db h) (
      stays_revoked (
        subst (λ o. Move o (status_in (handle env ctx r db).devices k)) was
          (handle-Moves env ctx r db h.0 k)))
