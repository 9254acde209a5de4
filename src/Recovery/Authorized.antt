-- ===== src/Recovery/Authorized.antt =====
-- A client comes back only under a live Owner authorization, which is used up.
use rustdesk_managed_directo.Common.{
  ℕ, String, ◌≡◌, refl, true, false, ◌&&◌, Option, none, some, List, ◌==◌, arith, is_null, All,
  All-intro, All-update_where, find_where, find_where_sound,
}
use mathlib.Core.List.{Mem}
use rustdesk_managed_directo.Common.Members.{find_where-Mem}
use rustdesk_managed_directo.Http.{HttpError, Outcome, done, raised, Reply, Tx}
use rustdesk_managed_directo.Http.Keeps.{
  Ends, Hoare, Keeps, Hoare-bind, Hoare-modify, Hoare-fact, Keeps-raise_if, Keeps-gets, Keeps-pure,
}
use rustdesk_managed_directo.Store.{Device, Authorization, Db}
use rustdesk_managed_directo.Store.Env.{Env}
use rustdesk_managed_directo.Store.Queries.{found}
use rustdesk_managed_directo.Store.Rules.{
  IgnoresLogs, Keeps-write_audit, Keeps-write_enrollment_event, Keeps-found,
}
use rustdesk_managed_directo.Lifecycle.{Context}
use rustdesk_managed_directo.Enrollment.Identity.{Applicant, is_live_authorization}
use rustdesk_managed_directo.Enrollment.Readmit.{Admission, consume_authorization, readmit}
use rustdesk_managed_directo.Enrollment.Walk.{Keeps-normalize, Keeps-decode}
use rustdesk_managed_directo.Recovery.{
  recovers, polls, recovering_device, RecoveryRequest, recover, lock_authorization,
  require_authorization, complete_device_reenrollment,
}

-- No authorization with the id is left to use.
abbrev pub Consumed : ℕ → Db → Type 0
Consumed id db = All (λ a. (a.id == id && is_null a.consumed_at) ≡ false) db.authorizations

abbrev Anything : Db → Type 0
Anything s = Unit {0}

consume_authorization-Consumed :
    (id now : ℕ) (l : List Authorization)
    → All (λ a. (a.id == id && is_null a.consumed_at) ≡ false) (consume_authorization id now l)
unfolding consume_authorization
consume_authorization-Consumed id now l =
    All-update_where {P = λ _. Unit {0}} _ _ (λ a _ e. ground arith) (λ a _ e. ground arith) l
      (All-intro _ (λ _. tt) l)

Anything-Ends : {A : Type 0} (o : Outcome Db A) → Ends (λ _ t. Anything t) o
Anything-Ends (done a s) = tt
Anything-Ends (raised e) = tt

Keeps-Anything : {A : Type 0} (m : Tx Db A) → Keeps Anything m
Keeps-Anything m = record { at = λ s h. Anything-Ends (m s) }

Consumed-IgnoresLogs : (id : ℕ) → IgnoresLogs (Consumed id)
Consumed-IgnoresLogs id = record {
  audits = λ db l h. h;
  events = λ db l h. h;
  queued = λ db l h. h;
}

readmit-Consumed :
    (env : Env) (ctx : Context) (a : Applicant) (d : Device) (auth : Authorization)
    (prefix : String)
    → Hoare Anything (readmit env ctx a d auth prefix) (λ _ t. Consumed auth.id t)
unfolding readmit
readmit-Consumed env ctx a d auth prefix = Hoare-bind _ _ (Keeps-Anything _) λ _.
    Hoare-bind _ _ (Keeps-Anything _) λ _.
      Hoare-bind _ _
        (Hoare-modify _ λ s h. consume_authorization-Consumed auth.id ctx.now s.authorizations)
        λ _. Keeps-pure {P = Consumed auth.id} _

recover-Consumed :
    (env : Env) (ctx : Context) (a : Applicant) (d : Device) (auth : Authorization)
    → Hoare Anything (recover env ctx a d auth) (λ _ t. Consumed auth.id t)
unfolding recover
recover-Consumed env ctx a d auth = Hoare-bind _ _ (Keeps-Anything _) λ _.
    Hoare-bind _ _ (readmit-Consumed env ctx a d auth _) λ _.
      Hoare-bind _ _ (Keeps-write_enrollment_event (Consumed-IgnoresLogs auth.id) _) λ _.
        Hoare-bind _ _ (Keeps-write_audit (Consumed-IgnoresLogs auth.id) _)
          λ _. Keeps-pure {P = Consumed auth.id} _

module _ (db : Db) where
  abbrev Same : Db → Type 0
  Same s = s ≡ db

  -- A read finds a row that satisfies the WHERE.
  found-Same :
      {A : Type 0} (F : A → Type 0) (o : Db → Option A) (e : HttpError)
      → ((a : A) → o db ≡ some a → F a)
      → Hoare Same (λ s. found (o s) e s) (λ a s. Same s × F a)
  found-Same {A} F o e k = record { at = λ s same. rw same (go (o db) refl) }
    where
      go : (r : Option A) → o db ≡ r → Ends (λ a s. Same s × F a) (found r e db)
      go none was = tt
      go (some a) was = (refl, k a was)

  -- A row of the table of authorizations that was live, and that nothing can use again.
  abbrev pub Spent : ℕ → ℕ → Db → Type 0
  Spent device_id now t =
      (b : Authorization) × Mem b db.authorizations
      × (is_live_authorization device_id now db.accounts b ≡ true)
      × Consumed b.id t

  recover-Spent :
      (env : Env) (ctx : Context) (a : Applicant) (d : Device) (b : Authorization) (id : ℕ)
      → Mem b db.authorizations
      → is_live_authorization id ctx.now db.accounts b ≡ true
      → Hoare Same (recover env ctx a d b) (λ _ t. Spent id ctx.now t)
  recover-Spent env ctx a d b id row live = record {
    at = λ s h. go _ ((recover-Consumed env ctx a d b).at s tt);
  }
    where
      go :
          (o : Outcome Db (Reply Admission))
          → Ends (λ _ t. Consumed b.id t) o
          → Ends (λ _ t. Spent id ctx.now t) o
      go (done r t) h = (b, row, live, h)
      go (raised e) h = tt

  recovers_id :
      (env : Env) (id now : ℕ) (token : String) (d : Device)
      → recovers env id token now d ≡ true
      → d.id ≡ id
  unfolding recovers polls
  recovers_id env id now token d h = ground arith

-- A completed re-enrollment has used up a row of the table of authorizations that was live in the
-- tables before: one for this device, neither consumed nor revoked nor expired, of an active Owner. Without one every
-- attempt ends in an error.
pub complete_device_reenrollment-Spent :
    (env : Env) (ctx : Context) (r : RecoveryRequest) (db : Db)
    → Ends (λ _ t. Spent db r.device_id ctx.now t) (complete_device_reenrollment env ctx r db)
unfolding complete_device_reenrollment recovering_device require_authorization lock_authorization
complete_device_reenrollment-Spent env ctx r db =
    (Hoare-bind _ _ (Keeps-normalize {P = Same db} env r.contact_email) λ email.
        Hoare-bind _ _ (Keeps-decode {P = Same db} env r.device_public_key) λ key.
          Hoare-bind _ _
            (found-Same db (λ d. d.id ≡ r.device_id)
              (λ s. find_where (recovers env r.device_id r.poll_token ctx.now) s.devices) _
              (λ d was.
                recovers_id db env r.device_id ctx.now r.poll_token d
                  (find_where_sound _ db.devices was)))
            λ d. Hoare-fact {P = Same db} _ λ id.
              Hoare-bind _ _ (Keeps-raise_if {P = Same db} _ _) λ _.
                Hoare-bind _ _ (Keeps-gets {P = Same db} _) λ taken.
                  Hoare-bind _ _ (Keeps-raise_if {P = Same db} _ _) λ _.
                    Hoare-bind _ _ (Keeps-found (Same db) _ _) λ seen.
                      Hoare-bind _ _
                        (found-Same db
                          (λ b.
                            Mem b db.authorizations
                            × (is_live_authorization d.id ctx.now db.accounts b ≡ true))
                          (λ s.
                            find_where
                              (λ b.
                                b.id == seen.id && is_live_authorization d.id ctx.now s.accounts b)
                              s.authorizations)
                          _
                          (λ b was. (
                            find_where-Mem _ db.authorizations was,
                            live_of seen.id d.id b (find_where_sound _ db.authorizations was),
                          )))
                        λ b. Hoare-fact {P = Same db} _ λ live.
                          recover-Spent db env ctx _ d b r.device_id live.0 (rw (← id) live.1)).at
      db refl
  where
    live_of :
        (seen id : ℕ) (b : Authorization)
        → (b.id == seen && is_live_authorization id ctx.now db.accounts b) ≡ true
        → is_live_authorization id ctx.now db.accounts b ≡ true
    live_of seen id b h = ground arith
