-- ===== src/Enrollment/Attempts.antt =====
-- The events and secrets of main.py `enroll_device`: the limit on failures of an address, the secret
-- that a password finds, and why it may not be used.
use rustdesk_managed_directo.Common.{
  ℕ, String, ◌+◌, Bool, true, false, not, ◌&&◌, ◌||◌, Option, none, some, List, ◌==◌, ltb, leb,
  if◌then◌else◌, is_null, same_text, update_where, latest_where, count_where, unexpired,
}
use rustdesk_managed_directo.Http.{http, Tx, Reply, refused, pure, ◌>>◌}
use rustdesk_managed_directo.Store.{
  Secret, EnrollmentEvent, EnrollmentResult, accepted_pending, rejected_bad_secret,
  rejected_expired, rejected_revoked, rejected_limit, duplicate, Db,
}
use rustdesk_managed_directo.Store.Env.{Env}
use rustdesk_managed_directo.Store.Queries.{write_enrollment_event}
use rustdesk_managed_directo.Lifecycle.{Context}
use rustdesk_managed_directo.Enrollment.Identity.{Applicant}
use rustdesk_managed_directo.Enrollment.Readmit.{Admission}

abbrev rate_limit_window : ℕ
rate_limit_window = 900

abbrev pub max_failures_per_window : ℕ
max_failures_per_window = 10

abbrev is_bad_secret : EnrollmentResult → Bool
is_bad_secret rejected_bad_secret = true
is_bad_secret _ = false

-- A failure of this address in the last 15 minutes; SQL's `=` holds for no address at all if it is
-- NULL.
unfoldable pub is_recent_failure : Option String → ℕ → EnrollmentEvent → Bool
is_recent_failure source_ip now e =
    (elim source_ip [ none ↦ false | some ip ↦ same_text e.source_ip ip ])
    && is_bad_secret e.result
    && ltb now (e.created_at + rate_limit_window)

unfoldable pub recent_failures : Option String → ℕ → List EnrollmentEvent → ℕ
unfolding is_recent_failure
recent_failures source_ip now events = count_where (is_recent_failure source_ip now) events

-- The newest secret whose hash the password matches.
unfoldable pub find_secret : Env → String → List Secret → Option Secret
find_secret env password secrets =
    latest_where (λ s. s.created_at) (λ s. env.crypt_matches password s.password_hash) secrets

abbrev used_up : Secret → Bool
used_up s = elim s.max_uses [ none ↦ false | some n ↦ leb n s.use_count ]

abbrev pub result_text : EnrollmentResult → String
result_text accepted_pending = "accepted_pending"
result_text rejected_bad_secret = "rejected_bad_secret"
result_text rejected_expired = "rejected_expired"
result_text rejected_revoked = "rejected_revoked"
result_text rejected_limit = "rejected_limit"
result_text duplicate = "duplicate"

-- Why a secret that matches may not be used: the event's result and the error's text.
unfoldable pub rejection : Secret → ℕ → Option (EnrollmentResult × String)
rejection s now =
    if not s.is_active || not (is_null s.revoked_at)
    then some (rejected_revoked, "Enrollment password is revoked")
    else if not (unexpired s.expires_at now)
    then some (rejected_expired, "Enrollment password is expired")
    else if used_up s
    then some (rejected_limit, "Enrollment password usage limit is reached")
    else none

unfoldable pub use_secret : ℕ → List Secret → List Secret
use_secret id secrets =
    update_where (λ s. s.id == id) (λ s. record s { use_count = s.use_count + 1 }) secrets

abbrev pub event :
    Context → Applicant → Option ℕ → Option ℕ → EnrollmentResult → String → EnrollmentEvent
event ctx a device secret result reason = record {
  device_id = device;
  secret_id = secret;
  rustdesk_id = a.rustdesk_id;
  source_ip = ctx.source_ip;
  result = result;
  reason = reason;
  created_at = ctx.now;
}

-- Writes an event, commits, and refuses.
unfoldable pub log_and_refuse : EnrollmentEvent → ℕ → String → Tx Db (Reply Admission)
log_and_refuse e code detail = do write_enrollment_event e; pure (refused (http code detail))
