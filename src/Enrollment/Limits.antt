-- ===== src/Enrollment/Limits.antt =====
-- What an enrollment cannot do without a secret, or after too many failures.
use rustdesk_managed_directo.Common.{
  ℕ, String, ◌≡◌, refl, true, Option, none, some, List, ◌∷◌, arith, inl, inr, leb, Bool-cases,
  count_where,
}
use rustdesk_managed_directo.Http.{Reply, refused, http, ◌>>=◌}
use rustdesk_managed_directo.Http.Keeps.{Ends, Hoare-bind, Keeps-raise_if}
use rustdesk_managed_directo.Store.{Secret, EnrollmentEvent, rejected_bad_secret, Db}
use rustdesk_managed_directo.Store.Env.{Env}
use rustdesk_managed_directo.Store.Queries.{write_enrollment_event}
use rustdesk_managed_directo.Lifecycle.{Context}
use rustdesk_managed_directo.Enrollment.{
  EnrollmentRequest, enroll_secret, enroll_with, enroll_applicant, enroll_device,
}
use rustdesk_managed_directo.Enrollment.Attempts.{
  is_recent_failure, recent_failures, find_secret, rejection, event, log_and_refuse,
  max_failures_per_window,
}
use rustdesk_managed_directo.Enrollment.Identity.{Applicant}
use rustdesk_managed_directo.Enrollment.Readmit.{Admission}
use rustdesk_managed_directo.Enrollment.Walk.{Keeps-normalize, Keeps-decode}

-- Every table is the same but the log of enrollment events, which may have got a row.
abbrev pub OnlyLogged : Db → Db → Type 0
OnlyLogged old new = new ≡ record old { enrollment_events = new.enrollment_events }

abbrev Limited : Context → Db → Type 0
Limited ctx db =
    leb max_failures_per_window (recent_failures ctx.source_ip ctx.now db.enrollment_events) ≡ true

more_failures :
    (ctx : Context) (e : EnrollmentEvent) (l : List EnrollmentEvent)
    → leb max_failures_per_window (recent_failures ctx.source_ip ctx.now l) ≡ true
    → leb max_failures_per_window (recent_failures ctx.source_ip ctx.now (e ∷ l)) ≡ true
unfolding recent_failures count_where
more_failures ctx e l h = elim (Bool-cases (is_recent_failure ctx.source_ip ctx.now e)) [
  | inl on ↦ rw on (ground arith)
  | inr off ↦ rw off h
]

module _ (ctx : Context) (db : Db) where
  -- The answer and the tables after a limited attempt.
  abbrev pub TurnedAway : Reply Admission → Db → Type 0
  TurnedAway reply t =
      (reply
        ≡ refused
            (http 429 "Too many failed enrollment attempts from this address - try again later"))
      × OnlyLogged db t
      × Limited ctx t

  turned_away :
      (a : Applicant)
      → Limited ctx db
      → Ends TurnedAway (
          log_and_refuse
            (event ctx a none none rejected_bad_secret "rate_limited")
            429
            "Too many failed enrollment attempts from this address - try again later"
            db)
  unfolding log_and_refuse write_enrollment_event ◌>>=◌
  turned_away a limited = (refl, refl, more_failures ctx _ db.enrollment_events limited)

  applicant-Limited :
      (env : Env) (a : Applicant) (password : String) (token : Option String)
      → Limited ctx db
      → Ends TurnedAway (enroll_applicant env ctx a password token db)
  unfolding enroll_applicant ◌>>=◌
  applicant-Limited env a password token limited = rw limited (turned_away a limited)

-- While ten failures of its address are in the window, an enrollment whatever its payload, the right
-- password included, is rolled back with an error in the payload, or is refused with 429, changes no
-- table but the log of enrollment events, and leaves the address limited.
pub enroll_device-Limited :
    (env : Env) (ctx : Context) (r : EnrollmentRequest) (db : Db)
    → Limited ctx db
    → Ends (TurnedAway ctx db) (enroll_device env ctx r db)
unfolding enroll_device
enroll_device-Limited env ctx r db limited =
    (Hoare-bind {P = λ s. s ≡ db} _ _ (Keeps-normalize {P = λ s. s ≡ db} env r.contact_email)
        λ email. Hoare-bind _ _ (Keeps-raise_if {P = λ s. s ≡ db} _ _) λ _.
          Hoare-bind _ _ (Keeps-decode {P = λ s. s ≡ db} env r.device_public_key) λ key. record {
            at = λ s same. rw same (
                applicant-Limited ctx db env _ r.enrollment_password r.reenrollment_poll_token
                  limited);
          }).at
      db refl

module _ (db : Db) where
  refused_early :
      (e : EnrollmentEvent) (code : ℕ) (detail : String)
      → Ends (λ _ t. OnlyLogged db t) (log_and_refuse e code detail db)
  unfolding log_and_refuse write_enrollment_event ◌>>=◌
  refused_early e code detail = refl

  secret-needed :
      (env : Env) (ctx : Context) (a : Applicant) (token : Option String) (o : Option Secret)
      → ((s : Secret) → o ≡ some s → ¬ (rejection s ctx.now ≡ none))
      → Ends (λ _ t. OnlyLogged db t) (enroll_secret env ctx a token o db)
  unfolding enroll_secret
  secret-needed env ctx a token none unusable = refused_early _ _ _
  secret-needed env ctx a token (some s) unusable = go (rejection s ctx.now) refl
    where
      go :
          (o : _)
          → rejection s ctx.now ≡ o
          → Ends (λ _ t. OnlyLogged db t) (enroll_with env ctx a token s o db)
      go none was = absurd (unusable s refl was)
      go (some (result, detail)) was = refused_early _ _ _

  applicant-secret :
      (env : Env) (ctx : Context) (a : Applicant) (password : String) (token : Option String)
      → ((s : Secret)
          → find_secret env password db.secrets ≡ some s
          → ¬ (rejection s ctx.now ≡ none))
      → Ends (λ _ t. OnlyLogged db t) (enroll_applicant env ctx a password token db)
  unfolding enroll_applicant ◌>>=◌
  applicant-secret env ctx a password token unusable =
      elim (Bool-cases (
        leb max_failures_per_window (recent_failures ctx.source_ip ctx.now db.enrollment_events))) [
          | inl on ↦ rw on (refused_early _ _ _)
          | inr off ↦ rw off (secret-needed env ctx a token _ unusable)
        ]

-- Without a usable secret (the newest one that the password matches is revoked, expired or used up,
-- or there is none) an enrollment changes no table but the log of enrollment events.
pub enroll_device-needs_secret :
    (env : Env) (ctx : Context) (r : EnrollmentRequest) (db : Db)
    → ((s : Secret)
        → find_secret env r.enrollment_password db.secrets ≡ some s
        → ¬ (rejection s ctx.now ≡ none))
    → Ends (λ _ t. OnlyLogged db t) (enroll_device env ctx r db)
unfolding enroll_device
enroll_device-needs_secret env ctx r db unusable =
    (Hoare-bind {P = λ s. s ≡ db} _ _ (Keeps-normalize {P = λ s. s ≡ db} env r.contact_email)
        λ email. Hoare-bind _ _ (Keeps-raise_if {P = λ s. s ≡ db} _ _) λ _.
          Hoare-bind _ _ (Keeps-decode {P = λ s. s ≡ db} env r.device_public_key) λ key. record {
            at = λ s same. rw same (
                applicant-secret db env ctx _ r.enrollment_password r.reenrollment_poll_token
                  unusable);
          }).at
      db refl
