-- ===== src/Lifecycle/Walk.antt =====
-- `approve_device` and `change_device_status`, followed once for every proof about them.
use rustdesk_managed_directo.Common.{
  ℕ, String, ◌≡◌, refl, sym, subst, Bool, true, false, ◌||◌, Option, some, Bool-cases, inl, inr,
  if◌then◌else◌,
}
use rustdesk_managed_directo.Http.{Tx, modify}
use rustdesk_managed_directo.Http.Keeps.{
  Hoare, Keeps, Hoare-bind, Hoare-modify, Hoare-pure, Hoare-raise, Hoare-pre, Hoare-raise_if,
  Keeps-gets, Keeps-pure, Keeps-if,
}
use rustdesk_managed_directo.Store.{
  Status, pending, approved, denied, blocked, revoked, Device, Audit, EnrollmentEvent, JobKind, Db,
  is_approved, is_blocked, is_revoked, reserves_name,
}
use rustdesk_managed_directo.Store.Env.{Env}
use rustdesk_managed_directo.Store.Queries.{
  name_taken, write_audit, write_enrollment_event, sec8_enqueue,
}
use rustdesk_managed_directo.Store.Triggers.{revoke_credentials}
use rustdesk_managed_directo.Store.View.{id-get_device}
use rustdesk_managed_directo.Store.Sound.{relock}
use rustdesk_managed_directo.Store.Moves.{
  Move, approves_pending, approves_denied, denies, blocks_pending, blocks_approved, revokes,
}
use rustdesk_managed_directo.Store.Phases.{Ready, Phases}
use rustdesk_managed_directo.Store.Rules.{
  Locked, IgnoresLogs, Keeps-write_audit, Keeps-write_enrollment_event, Keeps-sec8_enqueue,
  get_device_for_update-Locked, Hoare-ensure,
}
use rustdesk_managed_directo.Lifecycle.{
  Context, mark_approved, queue_first_passport, approve_device, change_device_status, apply_status,
  verdict, Verdict, unchanged, proceed, refuse, transition, terminal_cleanup,
}

approve-Move :
    (s : Status)
    → (is_blocked s || is_revoked s) ≡ false
    → is_approved s ≡ false
    → Move (some s) (some approved)
approve-Move pending h e = approves_pending
approve-Move approved h e = cc
approve-Move denied h e = approves_denied
approve-Move blocked h e = cc
approve-Move revoked h e = cc

-- What `transition` lets through, for the three routes.
pub data Ends : Status → Type 0 where
  to_denied : Ends denied
  to_blocked : Ends blocked
  to_revoked : Ends revoked

proceed-Move :
    {new : Status} (e : Ends new) (s : Status)
    → transition new s ≡ proceed
    → Move (some s) (some new) × (reserves_name new ≡ true → reserves_name s ≡ true)
unfolding transition
proceed-Move to_denied pending h = (denies, λ r. cc)
proceed-Move to_denied approved h = cc
proceed-Move to_denied denied h = cc
proceed-Move to_denied blocked h = cc
proceed-Move to_denied revoked h = cc
proceed-Move to_blocked pending h = (blocks_pending, λ r. refl)
proceed-Move to_blocked approved h = (blocks_approved, λ r. refl)
proceed-Move to_blocked denied h = cc
proceed-Move to_blocked blocked h = cc
proceed-Move to_blocked revoked h = cc
proceed-Move to_revoked pending h = cc
proceed-Move to_revoked approved h = (revokes, λ r. cc)
proceed-Move to_revoked denied h = cc
proceed-Move to_revoked blocked h = cc
proceed-Move to_revoked revoked h = cc

module _ {env : Env} {Pre Post : Db → Type 0} (ph : Phases env Pre Post) where
  pub Post-IgnoresLogs : IgnoresLogs Post
  Post-IgnoresLogs = record {
    audits = λ db l h. ph.frame_post db _ refl refl h;
    events = λ db l h. ph.frame_post db _ refl refl h;
    queued = λ db l h. ph.frame_post db _ refl refl h;
  }

  pub audit-walk : (a : Audit) → Keeps Post (write_audit a)
  audit-walk = Keeps-write_audit Post-IgnoresLogs

  pub event-walk : (e : EnrollmentEvent) → Keeps Post (write_enrollment_event e)
  event-walk = Keeps-write_enrollment_event Post-IgnoresLogs

  pub enqueue-walk :
      (job : ℕ) (kind : JobKind) (id : ℕ) (idk prot : Option String)
      → Keeps Post (sec8_enqueue job kind id idk prot)
  enqueue-walk = Keeps-sec8_enqueue Post-IgnoresLogs

  mark_approved-walk :
      (d : Device) (name : Option String) (reason : String) (actor now : ℕ)
      → (is_blocked d.status || is_revoked d.status) ≡ false
      → Hoare (Ready env Pre d name) (mark_approved d name reason actor now) (λ _ t. Post t)
  unfolding mark_approved
  mark_approved-walk d name reason actor now open_status =
      elim (Bool-cases (is_approved d.status)) [
        | inl old ↦ rw old (ph.rename d name)
        | inr new ↦ rw new (
            ph.set_named d now approved reason actor (λ e. record e { friendly_name = name }) name
              (λ e. refl) refl (approve-Move d.status open_status new))
      ]

  queue_first_passport-walk : (s : Status) (job id : ℕ) → Keeps Post (queue_first_passport s job id)
  unfolding queue_first_passport
  queue_first_passport-walk s job id = Hoare-bind _ _ (Keeps-gets _) λ mode.
      Hoare-bind _ _ (Keeps-gets _) λ keyed. Keeps-if _ _ _ (enqueue-walk _ _ _ _ _) (Keeps-pure _)

  -- A locked row, under its own id.
  pub lock-walk :
      {A : Type 0} {Q : A → Db → Type 0} (id : ℕ) (d : Device) (m : Tx Db A)
      → Hoare (Locked Pre d.id d) m Q
      → Hoare (Locked Pre id d) m Q
  lock-walk id d m k = Hoare-pre m (λ s h. (h.0, relock id d s.devices h.1)) k

  mark_ready :
      (id : ℕ) (d : Device) (name : Option String) (reason : String) (actor now : ℕ)
      → Hoare
          (λ s.
            (Locked Pre id d s × ((is_blocked d.status || is_revoked d.status) ≡ false))
            × (name_taken env name (some id) s.devices ≡ false))
          (mark_approved d name reason actor now)
          (λ _ t. Post t)
  mark_ready id d name reason actor now = record {
    at = λ s h.
        let e = id-get_device s.devices id h.0.0.1 in
        (mark_approved-walk d name reason actor now h.0.1).at s (
          h.0.0.0,
          relock id d s.devices h.0.0.1,
          subst (λ k. name_taken env name (some k) s.devices ≡ false) (sym e) h.1,
        );
  }

  pub approve_device-walk :
      (ctx : Context) (id : ℕ) (name reason : Option String) (actor : ℕ)
      → Hoare Pre (approve_device env ctx id name reason actor) (λ _ t. Post t)
  unfolding approve_device
  approve_device-walk ctx id name reason actor =
      Hoare-bind _ _ (get_device_for_update-Locked id) λ d.
        Hoare-bind _ _ (Hoare-raise_if {P = Locked Pre id d} _ _) λ _.
          Hoare-bind _ _
            (Hoare-ensure
              {P = λ s. Locked Pre id d s × ((is_blocked d.status || is_revoked d.status) ≡ false)}
              env _ _)
            λ _. Hoare-bind {Q = λ _ t. Post t} _ _ (mark_ready id d _ _ actor ctx.now) λ _.
              Hoare-bind _ _ (ph.issue id ctx.fresh_serial actor ctx.now) λ c.
                Hoare-bind _ _ (Keeps-gets _) λ i.
                  Hoare-bind _ _ (queue_first_passport-walk d.status ctx.job_id id)
                    λ _. Hoare-bind _ _ (audit-walk _) λ _. Keeps-pure _

  cleanup-walk :
      (b : Bool) (ctx : Context) (d : Device) (actor : ℕ)
      → Keeps
          (Locked Pre d.id d)
          (modify (λ db. if b then terminal_cleanup env d.id ctx.now actor db else db))
  unfolding terminal_cleanup revoke_credentials
  cleanup-walk true ctx d actor =
      Hoare-modify _
        λ s h. (ph.frame_pre _ _ refl refl (ph.revoke _ _ (λ c. (ctx.now, refl)) s h.0), h.1)
  cleanup-walk false ctx d actor = Hoare-modify _ λ s h. h

  apply_status-walk :
      (ctx : Context) (d : Device) (new : Status) (reason : String) (actor : ℕ)
      → Move (some d.status) (some new) × (reserves_name new ≡ true → reserves_name d.status ≡ true)
      → Hoare (Locked Pre d.id d) (apply_status env ctx d new reason actor) (λ _ t. Post t)
  unfolding apply_status
  apply_status-walk ctx d new reason actor m =
      Hoare-bind _ _ (cleanup-walk (is_blocked new || is_revoked new) ctx d actor) λ _.
        Hoare-bind _ _ (ph.set_plain d ctx.now new _ actor m.0 m.1) λ _.
          Hoare-bind _ _ (Keeps-if _ _ _ (enqueue-walk _ _ _ _ _) (Keeps-pure _))
            λ _. Hoare-bind _ _ (audit-walk _) λ _. Keeps-pure _

  pub change_device_status-walk :
      {new : Status} (e : Ends new) (ctx : Context) (id : ℕ) (reason : String) (actor : ℕ)
      → Hoare Pre (change_device_status env ctx id new reason actor) (λ _ t. Post t)
  unfolding change_device_status
  change_device_status-walk {new} e ctx id reason actor =
      Hoare-bind _ _ (get_device_for_update-Locked id)
        λ d. lock-walk id d _ (go d (transition new d.status) refl)
    where
      go :
          (d : Device) (v : Verdict)
          → transition new d.status ≡ v
          → Hoare (Locked Pre d.id d) (verdict env ctx d new reason actor v) (λ _ t. Post t)
      go d unchanged was = Hoare-pure _ λ s h. ph.weaken s h.0
      go d (refuse detail) was = Hoare-raise _
      go d proceed was = apply_status-walk ctx d new reason actor (proceed-Move e d.status was)
