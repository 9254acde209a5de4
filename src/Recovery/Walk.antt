-- ===== src/Recovery/Walk.antt =====
-- The continuity endpoints and the polls, followed once for every proof about them.
use rustdesk_managed_directo.Common.{
  ℕ, String, ◌+◌, ◌≡◌, refl, Bool, true, false, not, Option, none, some, ◌==◌, is_null, Bool-cases,
  inl, inr, All-find_where, if◌then◌else◌, find_where, find_where_sound, arith,
}
use rustdesk_managed_directo.Http.{HttpError}
use rustdesk_managed_directo.Http.Keeps.{
  Ends, Hoare, Keeps, Hoare-bind, Hoare-modify, Hoare-pre, Hoare-fact, Keeps-raise_if, Keeps-gets,
  Keeps-pure, Keeps-modify,
}
use rustdesk_managed_directo.Store.{
  Status, pending, approved, denied, blocked, revoked, Device, Authorization, Recovery, Db,
  is_pending, is_approved, is_recoverable,
}
use rustdesk_managed_directo.Store.Env.{Env}
use rustdesk_managed_directo.Store.Queries.{found}
use rustdesk_managed_directo.Store.Keyed.{FindsItself, update_where-and}
use rustdesk_managed_directo.Store.Moves.{Move, readmits_denied, readmits_blocked}
use rustdesk_managed_directo.Store.Phases.{Phases, Touches}
use rustdesk_managed_directo.Store.Rules.{
  Locked, get_device_for_update-Locked, Hoare-ensure, Keeps-found,
}
use rustdesk_managed_directo.Lifecycle.{Context}
use rustdesk_managed_directo.Lifecycle.Walk.{audit-walk, event-walk}
use rustdesk_managed_directo.Enrollment.Identity.{Applicant}
use rustdesk_managed_directo.Enrollment.Readmit.{poll_seconds}
use rustdesk_managed_directo.Enrollment.Walk.{readmit-walk, Keeps-normalize, Keeps-decode}
use rustdesk_managed_directo.Recovery.{
  grant_authorization, authorize_device_reenrollment, recovers, recovering_device, touch,
  open_request, request_device_reenrollment, RecoveryRequest, recover, lock_authorization,
  require_authorization, complete_device_reenrollment, enrollment_status,
}

extend_poll : Context → Device → Device
extend_poll ctx d = record d { poll_expires_at = some (ctx.now + poll_seconds) }

extend_poll-Touches :
    (ctx : Context)
    → Touches (λ x. if not (is_null x.poll_token_hash) then extend_poll ctx x else x)
unfolding extend_poll
extend_poll-Touches ctx = record {
  id = λ x. ground arith;
  status = λ x. ground arith;
  friendly_name = λ x. ground arith;
}

recovers_status :
    (env : Env) (id : ℕ) (token : String) (now : ℕ) (d : Device)
    → recovers env id token now d ≡ true
    → is_recoverable d.status ≡ true
unfolding recovers
recovers_status env id token now d h = ground arith

readmit-Move : (s : Status) → is_recoverable s ≡ true → Move (some s) (some pending)
readmit-Move pending h = cc
readmit-Move approved h = cc
readmit-Move denied h = readmits_denied
readmit-Move blocked h = readmits_blocked
readmit-Move revoked h = cc

module _ {env : Env} {Pre Post : Db → Type 0} (ph : Phases env Pre Post) where
  grant_authorization-walk :
      (ctx : Context) (d : Device) (reason : String) (minutes actor : ℕ) (db : Db)
      → Pre db
      → Post (grant_authorization ctx d reason minutes actor db)
  unfolding grant_authorization extend_poll
  grant_authorization-walk ctx d reason minutes actor db h =
      elim (Bool-cases (not (is_pending d.status))) [
        | inr e ↦ rw e (ph.frame_post db _ refl refl (ph.weaken db h))
        | inl e ↦
            rw
              (
                e,
                update_where-and (λ x. x.id == d.id) (λ x. not (is_null x.poll_token_hash))
                    (extend_poll ctx) db.devices,
              )
              (ph.frame_post _ _ refl refl (
                ph.touch d.id
                  (λ x. if not (is_null x.poll_token_hash) then extend_poll ctx x else x)
                  (extend_poll-Touches ctx) db h))
      ]

  pub authorize-walk :
      (ctx : Context) (id : ℕ) (reason : String) (minutes actor : ℕ)
      → Hoare Pre (authorize_device_reenrollment env ctx id reason minutes actor) (λ _ t. Post t)
  unfolding authorize_device_reenrollment
  authorize-walk ctx id reason minutes actor = Hoare-bind _ _ (get_device_for_update-Locked id) λ d.
      Hoare-bind _ _ (Keeps-raise_if {P = Locked Pre id d} _ _) λ _.
        Hoare-bind _ _ (Keeps-raise_if {P = Locked Pre id d} _ _) λ _.
          Hoare-bind _ _
            (Hoare-modify _ λ s h. grant_authorization-walk ctx d _ minutes actor s h.0)
            λ _. Hoare-bind _ _ (audit-walk ph _) λ _. Keeps-pure _

  touch-walk : (ctx : Context) (id at : ℕ) (s : Db) → Pre s → Post (touch ctx id at s)
  unfolding touch
  touch-walk ctx id at s h =
      ph.touch id _ (record { id = λ e. refl; status = λ e. refl; friendly_name = λ e. refl }) s h

  open_request-walk :
      (ctx : Context) (d : Device) (r : Option Recovery) → Keeps Post (open_request ctx d r)
  unfolding open_request
  open_request-walk ctx d (some r) = Keeps-pure _
  open_request-walk ctx d none =
      Hoare-bind _ _ (Keeps-modify _ λ s h. ph.frame_post _ _ refl refl h)
        λ _. Hoare-bind _ _ (audit-walk ph _) λ _. Keeps-pure _

  pub request-walk :
      (ctx : Context) (id : ℕ) (token : String)
      → Hoare Pre (request_device_reenrollment env ctx id token) (λ _ t. Post t)
  unfolding request_device_reenrollment recovering_device
  request-walk ctx id token = Hoare-bind _ _ (Keeps-found Pre _ _) λ d.
      Hoare-bind _ _ (Hoare-modify _ (touch-walk ctx d.id _)) λ _.
        Hoare-bind _ _ (Keeps-modify _ λ s h. ph.frame_post _ _ refl refl h)
          λ _. Hoare-bind _ _ (Keeps-gets _) λ r. open_request-walk ctx d r

  -- The row that a query finds is the one that its id finds, and meets the query.
  find_where-Locked :
      (p : Device → Bool) (e : HttpError)
      → Hoare Pre
          (λ db. found (find_where p db.devices) e db)
          (λ d s. Locked Pre d.id d s × (p d ≡ true))
  find_where-Locked p e = record { at = λ s h. go s h (find_where p s.devices) refl }
    where
      go :
          (s : Db)
          → Pre s
          → (o : Option Device) → find_where p s.devices ≡ o
          → Ends (λ d t. Locked Pre d.id d t × (p d ≡ true)) (found o e s)
      go s h none was = tt
      go s h (some d) was = (
        (h, All-find_where (FindsItself s.devices) p s.devices (ph.keyed s h) was),
        find_where_sound p s.devices was,
      )

  recover-walk :
      (ctx : Context) (a : Applicant) (d : Device) (auth : Authorization)
      → Move (some d.status) (some pending)
      → Hoare (Locked Pre d.id d) (recover env ctx a d auth) (λ _ t. Post t)
  unfolding recover
  recover-walk ctx a d auth m = Hoare-bind _ _ (Hoare-ensure {P = Locked Pre d.id d} env _ _) λ _.
      Hoare-bind _ _ (Hoare-pre _ (λ s h. (h.0.0, h.0.1, h.1)) (readmit-walk ph ctx a d auth _ m))
        λ _.
          Hoare-bind _ _ (event-walk ph _) λ _. Hoare-bind _ _ (audit-walk ph _) λ _. Keeps-pure _

  pub complete-walk :
      (ctx : Context) (r : RecoveryRequest)
      → Hoare Pre (complete_device_reenrollment env ctx r) (λ _ t. Post t)
  unfolding complete_device_reenrollment recovering_device require_authorization lock_authorization
  complete-walk ctx r = Hoare-bind _ _ (Keeps-normalize {P = Pre} env r.contact_email) λ email.
      Hoare-bind _ _ (Keeps-decode {P = Pre} env r.device_public_key) λ key.
        Hoare-bind _ _ (find_where-Locked (recovers env r.device_id r.poll_token ctx.now) _) λ d.
          Hoare-fact {P = Locked Pre d.id d} _ λ meets.
            Hoare-bind _ _ (Keeps-raise_if {P = Locked Pre d.id d} _ _) λ _.
              Hoare-bind _ _ (Keeps-gets {P = Locked Pre d.id d} _) λ taken.
                Hoare-bind _ _ (Keeps-raise_if {P = Locked Pre d.id d} _ _) λ _.
                  Hoare-bind _ _ (Keeps-found (Locked Pre d.id d) _ _) λ seen.
                    Hoare-bind _ _ (Keeps-found (Locked Pre d.id d) _ _) λ auth.
                      recover-walk ctx _ d auth
                        (readmit-Move d.status (recovers_status env _ _ ctx.now d meets))

  pub status-walk :
      (ctx : Context) (id : ℕ) (token : String)
      → Hoare Pre (enrollment_status env ctx id token) (λ _ t. Post t)
  unfolding enrollment_status
  status-walk ctx id token = Hoare-bind _ _ (Keeps-found Pre _ _) λ d.
      Hoare-bind {Q = λ _ t. Post t} _ _ (Hoare-modify _ λ s h. keep d s h (is_approved d.status))
        λ _.
          Hoare-bind _ _ (Keeps-gets _) λ r.
            Hoare-bind _ _ (Keeps-gets _) λ auth. Hoare-bind _ _ (Keeps-gets _) λ c. Keeps-pure _
    where
      keep :
          (d : Device) (s : Db)
          → Pre s
          → (b : Bool) → Post (if b then s else touch ctx d.id (ctx.now + poll_seconds) s)
      keep d s h true = ph.weaken s h
      keep d s h false = touch-walk ctx d.id _ s h
