-- ===== src/Tests/Secrets.antt =====
-- An enrollment with the right password.
use rustdesk_managed_directo.Common.{true, none, some, [], ◌∷◌}
use rustdesk_managed_directo.Http.Keeps.{Ends}
use rustdesk_managed_directo.Store.{Secret, Db}
use rustdesk_managed_directo.Enrollment.{enroll_device}
use rustdesk_managed_directo.Enrollment.Secrets.{Spends, enroll_device-Spends}
use rustdesk_managed_directo.Tests.{env, db, ctx, application}

abbrev secret : Secret
secret = record {
  id = 50;
  password_hash = "secret";
  is_active = true;
  max_uses = some 3;
  use_count = 2;
  created_at = 10;
  expires_at = none;
  revoked_at = none;
  revoked_by = none;
  revocation_reason = none;
}

abbrev with_secret : Db
with_secret = record db { secrets = secret ∷ []; enrollment_events = [] }

enroll_device-Spends_example :
    Ends (Spends env ctx "secret" with_secret) (enroll_device env ctx application with_secret)
enroll_device-Spends_example = enroll_device-Spends env ctx application with_secret
