-- ===== src/Enrollment/Secrets.antt =====
-- How an enrollment counts the use of its secret.
use rustdesk_managed_directo.Common.{
  ℕ, String, ◌+◌, ◌<◌, ◌==◌, ◌≡◌, ◌∙◌, refl, ap, if◌then◌else◌, is_null, unexpired, true, map,
  update_where, inl, inr, Option, none, some, List, [], ◌∷◌, arith, leb, Bool-cases,
}
use rustdesk_managed_directo.Http.{
  Outcome, done, raised, Reply, accepted, refused, gets, modify, ◌>>=◌,
}
use rustdesk_managed_directo.Http.Keeps.{
  Ends, Hoare, Keeps, Hoare-bind, Hoare-modify, Hoare-pure, Hoare-if, Keeps-raise_if, Keeps-gets,
  Keeps-pure, Keeps-modify,
}
use rustdesk_managed_directo.Store.{
  Status, pending, approved, denied, blocked, revoked, Device, Authorization, Secret,
  EnrollmentEvent, EnrollmentResult, Db,
}
use rustdesk_managed_directo.Store.Env.{Env}
use rustdesk_managed_directo.Store.Queries.{write_enrollment_event}
use rustdesk_managed_directo.Store.Rules.{
  IgnoresLogs, Keeps-write_audit, Keeps-write_enrollment_event, Keeps-ensure,
}
use rustdesk_managed_directo.Store.Triggers.{
  same_status, may_change_status, update_status, insert_device,
}
use rustdesk_managed_directo.Lifecycle.{Context}
use rustdesk_managed_directo.Enrollment.{
  EnrollmentRequest, enroll_new, enroll_again, enroll_authorized, enroll_known, enroll_identified,
  enroll_identity, enroll_with, enroll_secret, enroll_applicant, enroll_device, new_device,
}
use rustdesk_managed_directo.Enrollment.Attempts.{
  find_secret, rejection, use_secret, log_and_refuse, max_failures_per_window, recent_failures,
}
use rustdesk_managed_directo.Enrollment.Identity.{Applicant}
use rustdesk_managed_directo.Enrollment.Readmit.{Admission, readmit}
use rustdesk_managed_directo.Enrollment.Walk.{Keeps-normalize, Keeps-decode}

module _ (l : List Secret) where
  abbrev Has : Db → Type 0
  Has s = s.secrets ≡ l

  Has-IgnoresLogs : IgnoresLogs Has
  Has-IgnoresLogs = record { audits = λ db a h. h; events = λ db a h. h; queued = λ db a h. h }

  update_status-Has :
      (id now : ℕ) (from to : Status) (reason : String) (actor : ℕ) (change : Device → Device)
      → Keeps Has (update_status id now from to reason actor change)
  unfolding update_status ◌>>=◌
  update_status-Has id now from to reason actor change = record {
    at = λ s h. elim (Bool-cases (same_status from to)) [
      | inl same ↦ rw same h
      | inr moves ↦ rw moves (elim (Bool-cases (may_change_status s.accounts actor)) [
        | inr no_actor ↦ rw no_actor tt
        | inl allowed ↦ rw allowed h
      ])
    ];
  }

  insert_device-Has : (d : Device) → Keeps Has (insert_device d)
  unfolding insert_device
  insert_device-Has d = record { at = λ s h. ground (arith, h) }

  readmit-Has :
      (env : Env) (ctx : Context) (a : Applicant) (d : Device) (auth : Authorization)
      (prefix : String)
      → Keeps Has (readmit env ctx a d auth prefix)
  unfolding readmit
  readmit-Has env ctx a d auth prefix = Hoare-bind _ _ (Keeps-modify _ λ s h. h) λ _.
      Hoare-bind _ _ (update_status-Has _ _ _ _ _ _ _)
        λ _. Hoare-bind _ _ (Keeps-modify _ λ s h. h) λ _. Keeps-pure _

-- The secrets after one more use of those with the id, with every other column and row as it was.
abbrev pub counted_once : ℕ → List Secret → List Secret
counted_once id l = map (λ s. if s.id == id then record s { use_count = s.use_count + 1 } else s) l

use_secret-counted_once : (id : ℕ) (l : List Secret) → use_secret id l ≡ counted_once id l
unfolding use_secret update_where map
use_secret-counted_once id [] = refl
use_secret-counted_once id (s ∷ l) = rw (← use_secret-counted_once id l) refl

-- An accepted device has counted the secret once, and a refused one not at all.
abbrev Counted : List Secret → Secret → Reply Admission → Db → Type 0
Counted l secret (accepted a) t = t.secrets ≡ counted_once secret.id l
Counted l secret (refused e) t = t.secrets ≡ l

module _ (l : List Secret) (secret : Secret) where
  abbrev Once : Db → Type 0
  Once t = t.secrets ≡ counted_once secret.id l

  Once-IgnoresLogs : IgnoresLogs Once
  Once-IgnoresLogs = record { audits = λ db a h. h; events = λ db a h. h; queued = λ db a h. h }

  count-Once :
      Hoare
        (Has l)
        (modify (λ db. record db { secrets = use_secret secret.id db.secrets }))
        (λ _ t. Once t)
  count-Once =
      Hoare-modify _ λ s h. ap (use_secret secret.id) h ∙ use_secret-counted_once secret.id l

  refuse-Counted :
      (e : EnrollmentEvent) (code : ℕ) (detail : String)
      → Hoare (Has l) (log_and_refuse e code detail) (Counted l secret)
  unfolding log_and_refuse
  refuse-Counted e code detail =
      Hoare-bind _ _ (Keeps-write_enrollment_event (Has-IgnoresLogs l) e) λ _. Hoare-pure _ λ s h. h

  module _ (env : Env) (ctx : Context) (a : Applicant) where
    enroll_new-Counted : Hoare (Has l) (enroll_new env ctx a secret) (Counted l secret)
    unfolding enroll_new
    enroll_new-Counted = Hoare-bind _ _ (Keeps-ensure {P = Has l} env _ _) λ _.
        Hoare-bind _ _ (insert_device-Has l (new_device env ctx a)) λ _.
          Hoare-bind _ _ count-Once λ _.
            Hoare-bind _ _ (Keeps-write_enrollment_event Once-IgnoresLogs _)
              λ _. Hoare-bind _ _ (Keeps-write_audit Once-IgnoresLogs _) λ _. Hoare-pure _ λ s h. h

    enroll_again-Counted :
        (d : Device) (auth : Authorization)
        → Hoare (Has l) (enroll_again env ctx a secret d auth) (Counted l secret)
    unfolding enroll_again
    enroll_again-Counted d auth = Hoare-bind _ _ (Keeps-ensure {P = Has l} env _ _) λ _.
        Hoare-bind _ _ (readmit-Has l env ctx a d auth _) λ _. Hoare-bind _ _ count-Once λ _.
          Hoare-bind _ _ (Keeps-write_enrollment_event Once-IgnoresLogs _)
            λ _. Hoare-bind _ _ (Keeps-write_audit Once-IgnoresLogs _) λ _. Hoare-pure _ λ s h. h

    authorized-Counted :
        (d : Device) (auth : Option Authorization)
        → Hoare (Has l) (enroll_authorized env ctx a secret d auth) (Counted l secret)
    unfolding enroll_authorized
    authorized-Counted d (some auth) = enroll_again-Counted d auth
    authorized-Counted d none = Hoare-if _ _ _ (refuse-Counted _ _ _) (refuse-Counted _ _ _)

    recovering-Counted :
        (d : Device) (f : Db → Option Authorization)
        → Hoare
            (Has l)
            (gets f >>= λ auth. enroll_authorized env ctx a secret d auth)
            (Counted l secret)
    recovering-Counted d f =
        Hoare-bind _ _ (Keeps-gets {P = Has l} _) λ auth. authorized-Counted d auth

    known-Counted :
        (d : Device) (s : Status) (token : Option String)
        → Hoare (Has l) (enroll_known env ctx a secret d s token) (Counted l secret)
    unfolding enroll_known
    known-Counted d approved token = refuse-Counted _ _ _
    known-Counted d revoked token = refuse-Counted _ _ _
    known-Counted d pending token = recovering-Counted d _
    known-Counted d denied token = recovering-Counted d _
    known-Counted d blocked token = recovering-Counted d _

    identified-Counted :
        (token : Option String) (o : Option Device) (found_rows : List Device)
        → Hoare (Has l) (enroll_identified env ctx a secret token o found_rows) (Counted l secret)
    unfolding enroll_identified
    identified-Counted token o [] = enroll_new-Counted
    identified-Counted token none (d ∷ rest) = refuse-Counted _ _ _
    identified-Counted token (some e) (d ∷ rest) =
        Hoare-if _ _ _ (refuse-Counted _ _ _) (known-Counted e e.status token)

    identity-Counted :
        (token : Option String)
        → Hoare (Has l) (enroll_identity env ctx a secret token) (Counted l secret)
    unfolding enroll_identity
    identity-Counted token =
        Hoare-bind _ _ (Keeps-gets {P = Has l} _)
          λ found_rows. identified-Counted token _ found_rows

-- Neither revoked, nor expired, nor used up.
abbrev pub Usable : ℕ → Secret → Type 0
Usable now s =
    (s.is_active ≡ true)
    × (is_null s.revoked_at ≡ true)
    × (unexpired s.expires_at now ≡ true)
    × ((n : ℕ) → s.max_uses ≡ some n → s.use_count < n)

rejection-Usable : (s : Secret) (now : ℕ) → rejection s now ≡ none → Usable now s
unfolding rejection
rejection-Usable s now h =
    (ground (arith, h), ground (arith, h), ground (arith, h), λ n e. ground (arith, h, e))

-- One use of the secret that the password finds is counted, which may be used; or none.
abbrev pub Spends : Env → Context → String → Db → Reply Admission → Db → Type 0
Spends env ctx password db (accepted a) t =
    (s : Secret) × (find_secret env password db.secrets ≡ some s)
    × Usable ctx.now s
    × (t.secrets ≡ counted_once s.id db.secrets)
Spends env ctx password db (refused e) t = t.secrets ≡ db.secrets

module _ (env : Env) (ctx : Context) (a : Applicant) (password : String) (token : Option String)
    (db : Db) where
  Counted-Spends :
      (s : Secret) (o : Outcome Db (Reply Admission))
      → find_secret env password db.secrets ≡ some s
      → rejection s ctx.now ≡ none
      → Ends (Counted db.secrets s) o
      → Ends (Spends env ctx password db) o
  Counted-Spends s (done (accepted r) t) f e h = (s, f, rejection-Usable s ctx.now e, h)
  Counted-Spends s (done (refused r) t) f e h = h
  Counted-Spends s (raised x) f e h = tt

  refused-Spends :
      (e : EnrollmentEvent) (code : ℕ) (detail : String)
      → Ends (Spends env ctx password db) (log_and_refuse e code detail db)
  unfolding log_and_refuse write_enrollment_event ◌>>=◌
  refused-Spends e code detail = refl

  with-Spends :
      (s : Secret)
      → find_secret env password db.secrets ≡ some s
      → (r : Option (EnrollmentResult × String)) → rejection s ctx.now ≡ r
      → Ends (Spends env ctx password db) (enroll_with env ctx a token s r db)
  unfolding enroll_with
  with-Spends s f (some (result, detail)) e = refused-Spends _ _ _
  with-Spends s f none e =
      Counted-Spends s _ f e ((identity-Counted db.secrets s env ctx a token).at db refl)

  secret-Spends :
      (o : Option Secret)
      → find_secret env password db.secrets ≡ o
      → Ends (Spends env ctx password db) (enroll_secret env ctx a token o db)
  unfolding enroll_secret
  secret-Spends none f = refused-Spends _ _ _
  secret-Spends (some s) f = with-Spends s f (rejection s ctx.now) refl

  applicant-Spends :
      Ends (Spends env ctx password db) (enroll_applicant env ctx a password token db)
  unfolding enroll_applicant ◌>>=◌
  applicant-Spends =
      elim (Bool-cases (
        leb max_failures_per_window (recent_failures ctx.source_ip ctx.now db.enrollment_events))) [
          | inl on ↦ rw on (refused-Spends _ _ _)
          | inr off ↦ rw off (secret-Spends _ refl)
        ]

-- An enrollment that is accepted has raised by one the use count of the secret that its password finds,
-- which was neither revoked, expired nor used up, and changed nothing else in the table of secrets; one
-- that is refused with a commit leaves that table as it was.
pub enroll_device-Spends :
    (env : Env) (ctx : Context) (r : EnrollmentRequest) (db : Db)
    → Ends (Spends env ctx r.enrollment_password db) (enroll_device env ctx r db)
unfolding enroll_device
enroll_device-Spends env ctx r db =
    (Hoare-bind {P = λ s. s ≡ db} _ _ (Keeps-normalize {P = λ s. s ≡ db} env r.contact_email)
        λ email. Hoare-bind _ _ (Keeps-raise_if {P = λ s. s ≡ db} _ _) λ _.
          Hoare-bind _ _ (Keeps-decode {P = λ s. s ≡ db} env r.device_public_key) λ key. record {
            at = λ s same.
                rw same
                  (applicant-Spends env ctx _ r.enrollment_password r.reenrollment_poll_token db);
          }).at
      db refl
