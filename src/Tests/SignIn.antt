-- ===== src/Tests/SignIn.antt =====
-- A sign-in with the right password and code, two wrong guesses, and a logout.
use rustdesk_managed_directo.Common.{
  ◌≡◌, ◌≢◌, ◌≤◌, refl, true, false, some, [], ◌∷◌, str_eq, arith, find_where,
}
use rustdesk_managed_directo.Http.{◌>>=◌}
use rustdesk_managed_directo.Http.Keeps.{Ends, Returns}
use rustdesk_managed_directo.Store.{Account, owner, full, Session, Db}
use rustdesk_managed_directo.Store.Env.{Env}
use rustdesk_managed_directo.Store.Queries.{get_int_directory_setting}
use rustdesk_managed_directo.Operators.Gates.{Operator}
use rustdesk_managed_directo.Operators.Sessions.{
  operator_of, require_operator, operator_idle_timeout,
}
use rustdesk_managed_directo.Operators.SignIn.{
  LoginRequest, new_session, access_seconds, session_seconds, count_failure, find_account,
  credentials_valid, perform_login,
}
use rustdesk_managed_directo.Operators.Lockout.{
  attempt, guard_of, missed, wrong_guesses, wrong_guesses-bound,
}
use rustdesk_managed_directo.Operators.Attempts.{Follows, guard_at, perform_login-Follows}
use rustdesk_managed_directo.Operators.RoundTrip.{request_with, perform_login-require_operator}
use rustdesk_managed_directo.Operators.Refresh.{refreshable, logout}
use rustdesk_managed_directo.Operators.SignedOut.{logout-Over}
use rustdesk_managed_directo.Tests.{env, account, db, ctx}

-- An authenticator that shows its secret, and an access token that carries the claims of one sign-in.
abbrev signing_in : Env
signing_in = record env {
  totp_verify = λ secret code now. str_eq secret code;
  decode_access = λ token now. some (record {
    sub = 10;
    sid = 4;
    role = owner;
    scope = full;
    kind = "access";
    iat = 100;
    exp = 1000;
    jti = 8;
  });
}

abbrev enrolled : Account
enrolled = record account { totp_enabled = true; totp_secret = some "123456" }

abbrev with_code : Db
with_code = record db { accounts = enrolled ∷ [] }

abbrev login : LoginRequest
login = record { username = "brad"; password = "password"; totp_code = some "123456" }

-- Three failures are on record.
abbrev failing : Account
failing = record account { failed_login_count = 3 }

enrolled_found :
    find_account signing_in (signing_in.strip login.username) with_code.accounts ≡ some enrolled
unfolding find_account find_where
enrolled_found = refl

enrolled_guard : guard_at with_code.accounts enrolled.id ≡ some (guard_of enrolled)
unfolding guard_at find_where
enrolled_guard = refl

thirty_days : session_seconds signing_in full with_code.settings ≡ 2592000
unfolding session_seconds get_int_directory_setting find_where
thirty_days = refl

fifteen_minutes : access_seconds signing_in with_code.settings ≡ 900
unfolding access_seconds get_int_directory_setting find_where
fifteen_minutes = refl

eight_hours : operator_idle_timeout signing_in with_code.settings ≡ 28800
unfolding operator_idle_timeout get_int_directory_setting find_where
eight_hours = refl

-- Of three wrong guesses after three failures two are looked at.
two_guesses : wrong_guesses (10 ∷ 20 ∷ 30 ∷ []) failing ≡ 2
unfolding wrong_guesses missed count_failure
two_guesses = refl

wrong_guesses-bound_example : wrong_guesses (10 ∷ 20 ∷ 30 ∷ []) failing ≤ 2
wrong_guesses-bound_example =
    wrong_guesses-bound 10 (10 ∷ 20 ∷ 30 ∷ []) failing
      (omega arith, (omega arith, (omega arith, tt)))
      (omega arith, (omega arith, (omega arith, tt)))

perform_login-Follows_example :
    Returns
      (Follows enrolled.id
        (attempt ctx.now (credentials_valid signing_in ctx.now enrolled login) (guard_of enrolled)))
      (perform_login signing_in ctx full login with_code)
perform_login-Follows_example =
    perform_login-Follows signing_in ctx full login enrolled with_code enrolled_found enrolled_guard
      refl (rw thirty_days (omega arith))

perform_login-require_operator_example :
    Returns
      (λ o _.
        o ≡ operator_of (new_session signing_in ctx full enrolled with_code.settings) enrolled)
      ((perform_login signing_in ctx full login >>= request_with signing_in 200) with_code)
perform_login-require_operator_example =
    perform_login-require_operator signing_in ctx full login enrolled 200 with_code enrolled_found
      refl refl (rw thirty_days (omega arith)) (rw thirty_days (omega arith)) (rw eight_hours refl)
      (rw fifteen_minutes refl)

abbrev operator : Operator
operator = record {
  session_id = 20;
  account_id = 10;
  username = "brad";
  role = owner;
  must_change_password = false;
  scope = full;
}

logout-Over_example :
    Returns
      (λ _ t.
        Ends (λ p _. p.session_id ≢ 20) (require_operator signing_in 200 (some "access") t)
        × ((s : Session) → refreshable signing_in 200 "access" t ≡ some s → s.id ≢ 20))
      (logout ctx operator with_code)
logout-Over_example = logout-Over signing_in ctx operator with_code 200 "access"
