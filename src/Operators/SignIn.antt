-- ===== src/Operators/SignIn.antt =====
-- main.py `issue_access_token` and `_perform_login`, the body of POST /v1/auth/login and of the mobile
-- login, which passes the scope.
use rustdesk_managed_directo.Common.{
  ℕ, String, ◌+◌, ◌*◌, ◌<>◌, Bool, false, not, ◌&&◌, ◌||◌, Option, none, some, List, ◌∷◌, ◌==◌,
  str_eq, leb, ltb, if◌then◌else◌, is_null, after_now, find_where, update_where,
}
use rustdesk_managed_directo.Http.{
  http, internal_error, Tx, Reply, accepted, refused, raised, done, pure, gets, modify, ◌>>=◌, ◌>>◌,
}
use rustdesk_managed_directo.Store.{Account, Role, Scope, Session, Setting, Db, is_mobile}
use rustdesk_managed_directo.Store.Env.{Env, AccessClaims}
use rustdesk_managed_directo.Store.Queries.{get_int_directory_setting, token_hash, write_audit}
use rustdesk_managed_directo.Lifecycle.{Context}

-- `LoginRequest`
pub record LoginRequest : Type 0 where
  pub username : String
  pub password : String
  pub totp_code : Option String

pub record Tokens : Type 0 where
  pub access_token : String
  pub refresh_token : String
  pub access_expires_at : ℕ
  pub session_expires_at : ℕ
  pub account_id : ℕ

abbrev pub max_login_failures : ℕ
max_login_failures = 5

-- LOCKOUT_MINUTES, in seconds
abbrev pub lockout_seconds : ℕ
lockout_seconds = 900

unfoldable pub access_seconds : Env → List Setting → ℕ
access_seconds env settings =
    get_int_directory_setting env "security.access_token_minutes" 15 settings * 60

unfoldable pub mobile_session_seconds : Env → List Setting → ℕ
mobile_session_seconds env settings =
    get_int_directory_setting env "security.mobile_session_days" 3650 settings * 86400

unfoldable pub session_seconds : Env → Scope → List Setting → ℕ
session_seconds env scope settings =
    if is_mobile scope
    then mobile_session_seconds env settings
    else get_int_directory_setting env "security.session_days" 30 settings * 86400

-- The claims of `issue_access_token`.
abbrev pub access_claims_of : Env → Context → ℕ → ℕ → Role → Scope → List Setting → AccessClaims
access_claims_of env ctx account_id session_id role scope settings = record {
  sub = account_id;
  sid = session_id;
  role = role;
  scope = scope;
  kind = "access";
  iat = ctx.now;
  exp = ctx.now + access_seconds env settings;
  jti = ctx.fresh_serial;
}

unfoldable pub issue_access_token : Env → Context → ℕ → ℕ → Role → Scope → List Setting → String
issue_access_token env ctx account_id session_id role scope settings =
    env.encode_access (access_claims_of env ctx account_id session_id role scope settings)

-- WHERE LOWER(username) = LOWER(…)
unfoldable pub find_account : Env → String → List Account → Option Account
find_account env username accounts =
    find_where (λ a. str_eq (env.lower a.username) (env.lower username)) accounts

-- The account may not sign in now, whatever the credentials.
abbrev pub is_unavailable : ℕ → Account → Bool
is_unavailable now a = not a.is_active || after_now a.locked_until now

abbrev pub totp_enrollment_required : Account → Bool
totp_enrollment_required a = not a.totp_enabled || is_null a.totp_secret

abbrev code_verifies : Env → ℕ → Option String → Option String → Bool
code_verifies env now none code = false
code_verifies env now (some secret) none = false
code_verifies env now (some secret) (some code) =
    not (str_eq code "") && env.totp_verify secret code now

abbrev pub totp_valid : Env → ℕ → Account → LoginRequest → Bool
totp_valid env now a r =
    not (totp_enrollment_required a) && code_verifies env now a.totp_secret r.totp_code

abbrev pub credentials_valid : Env → ℕ → Account → LoginRequest → Bool
credentials_valid env now a r =
    env.crypt_matches r.password a.password_hash && totp_valid env now a r

-- The UPDATE after a failure.
unfoldable pub count_failure : ℕ → Account → Account
count_failure now a = record a {
  failed_login_count = a.failed_login_count + 1;
  locked_until =
      if leb max_login_failures (a.failed_login_count + 1)
      then some (now + lockout_seconds)
      else none;
}

-- The UPDATE after a sign-in.
unfoldable pub clear_failures : ℕ → Account → Account
clear_failures now a = record a {
  failed_login_count = 0;
  locked_until = none;
  last_login_at = some now;
}

unfoldable pub update_account : Account → (Account → Account) → List Account → List Account
update_account a change accounts = update_where (λ b. b.id == a.id) (λ b. change a) accounts

abbrev wrong : Reply Tokens
wrong = refused (http 401 "Invalid username, password, or authenticator code")

-- Logs the failure, commits, and refuses.
unfoldable pub login_failed : Context → Option ℕ → String → Tx Db (Reply Tokens)
login_failed ctx account reason = do
  write_audit (record {
    event_type = "operator.login_failed";
    actor = account;
    target_id = account;
    source_ip = ctx.source_ip;
    reason = reason;
  })
  pure wrong

abbrev failure_reason : Env → Account → LoginRequest → String
failure_reason env a r =
    if env.crypt_matches r.password a.password_hash && totp_enrollment_required a
    then "totp_enrollment_required"
    else "invalid_credentials"

-- The session's row.
abbrev pub new_session : Env → Context → Scope → Account → List Setting → Session
new_session env ctx scope a settings = record {
  id = ctx.fresh_id;
  account_id = a.id;
  access_token_hash =
      token_hash env (issue_access_token env ctx a.id ctx.fresh_id a.role scope settings);
  refresh_token_hash = token_hash env ("rdr_" <> ctx.fresh_token);
  mfa_verified_at = if a.totp_enabled then some ctx.now else none;
  created_at = ctx.now;
  expires_at = ctx.now + session_seconds env scope settings;
  last_seen_at = some ctx.now;
  revoked_at = none;
  scope = scope;
}

-- INSERT of a session, with its CHECK (expires_at > created_at).
unfoldable pub insert_session : Session → Tx Db (Unit {0})
insert_session s db =
    if ltb s.created_at s.expires_at
    then done tt (record db { sessions = s ∷ db.sessions })
    else raised (internal_error "operator_sessions_check")

-- The statements after the credentials were found valid.
unfoldable pub open_session : Env → Context → Scope → Account → Tx Db (Reply Tokens)
open_session env ctx scope a = do
  settings ← gets (λ db. db.settings)
  insert_session (new_session env ctx scope a settings)
  modify (λ db. record db { accounts = update_account a (clear_failures ctx.now) db.accounts })
  write_audit (record {
    event_type = "operator.login_succeeded";
    actor = some a.id;
    target_id = some a.id;
    source_ip = ctx.source_ip;
    reason = "";
  })
  pure (
      accepted (record {
        access_token = issue_access_token env ctx a.id ctx.fresh_id a.role scope settings;
        refresh_token = "rdr_" <> ctx.fresh_token;
        access_expires_at = ctx.now + access_seconds env settings;
        session_expires_at = ctx.now + session_seconds env scope settings;
        account_id = a.id;
      }))

unfoldable pub fail_login : Env → Context → Account → LoginRequest → Tx Db (Reply Tokens)
fail_login env ctx a r = do
  modify (λ db. record db { accounts = update_account a (count_failure ctx.now) db.accounts })
  login_failed ctx (some a.id) (failure_reason env a r)

unfoldable pub login_as :
    Env → Context → Scope → LoginRequest → Option Account → Tx Db (Reply Tokens)
login_as env ctx scope r none = login_failed ctx none "invalid_credentials"
login_as env ctx scope r (some a) =
    if is_unavailable ctx.now a
    then login_failed ctx (some a.id) "account_unavailable"
    else if credentials_valid env ctx.now a r
    then open_session env ctx scope a
    else fail_login env ctx a r

-- `_perform_login`
unfoldable pub perform_login : Env → Context → Scope → LoginRequest → Tx Db (Reply Tokens)
perform_login env ctx scope r = do
  account ← gets (λ db. find_account env (env.strip r.username) db.accounts)
  login_as env ctx scope r account
