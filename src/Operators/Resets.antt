-- ===== src/Operators/Resets.antt =====
-- security_extension.py: links with which an operator gets a new password, a new authenticator or both.
-- An Owner makes one for somebody else, and an operator for oneself.
use rustdesk_managed_directo.Common.{
  ℕ, String, ◌+◌, ◌<>◌, Bool, true, false, not, ◌&&◌, ◌||◌, Option, none, some, List, ◌∷◌, ◌==◌,
  str_eq, leb, ltb, if◌then◌else◌, is_null, coalesce, find_where, exists_where, update_where,
}
use rustdesk_managed_directo.Http.{
  http, internal_error, Tx, Reply, accepted, raise_if, gets, modify, pure, ◌>>=◌, ◌>>◌,
}
use rustdesk_managed_directo.Store.{
  Account, Reset, ResetMode, password_only, totp_only, password_totp, Session, Db, resets_password,
  resets_totp,
}
use rustdesk_managed_directo.Store.Env.{Env}
use rustdesk_managed_directo.Store.Queries.{found, write_audit}
use rustdesk_managed_directo.Lifecycle.{Context}
use rustdesk_managed_directo.Enrollment.Inputs.{text_length}
use rustdesk_managed_directo.Operators.Gates.{Operator}
use rustdesk_managed_directo.Operators.SignIn.{update_account}
use rustdesk_managed_directo.Operators.Accounts.{
  live_account, fetch_account, revoke_account_sessions,
}
use rustdesk_managed_directo.Operators.Changes.{code_fits, verify_owner_reauthentication}
use rustdesk_managed_directo.Operators.Deletion.{revoke_resets}

-- `OperatorAccessResetCreateRequest` and `OperatorSelfAccessResetCreateRequest`, whose proofs are the
-- Owner's and the operator's own
pub record ResetRequest : Type 0 where
  pub reset_mode : ResetMode
  pub reason : String
  pub proof_password : String
  pub proof_totp_code : String

-- `OperatorAccessResetAcceptRequest`
pub record ResetAcceptRequest : Type 0 where
  pub reset_token : String
  pub password : Option String
  pub totp_code : String

-- RESET_MINUTES, in seconds
abbrev pub reset_seconds : ℕ
reset_seconds = 1800

unfoldable pub b32_hmac_secret : Env → String → String
b32_hmac_secret env token =
    env.b32encode (env.first_20 (env.hmac_sha256 env.totp_key ("operator-access-reset:" <> token)))

-- The digest under which a link is kept.
abbrev pub reset_token_hash : Env → String → String
reset_token_hash env token = env.hmac_sha256 env.token_secret token

abbrev pub new_reset : Env → Context → ℕ → ResetMode → ℕ → Reset
new_reset env ctx account mode requester = record {
  id = ctx.fresh_id;
  account_id = account;
  token_hash = reset_token_hash env ("rdrst_" <> ctx.fresh_token);
  reset_mode = mode;
  requested_by = requester;
  created_at = ctx.now;
  expires_at = ctx.now + reset_seconds;
  used_at = none;
  revoked_at = none;
}

-- INSERT, with the primary key and the unique digest of the table
unfoldable pub insert_reset : Reset → Tx Db (Unit {0})
insert_reset r = do
  clash ←
      gets (λ db. exists_where (λ q. q.id == r.id || str_eq q.token_hash r.token_hash) db.resets)
  raise_if clash (internal_error "operator_access_resets")
  modify (λ db. record db { resets = r ∷ db.resets })

-- The two UPDATEs with which an Owner's reset takes the old password and the old authenticator away.
unfoldable pub without_password : String → Account → Account
without_password hash a = record a {
  password_hash = hash;
  must_change_password = true;
  failed_login_count = 0;
  locked_until = none;
}

unfoldable pub without_totp : Account → Account
without_totp a = record a {
  totp_secret = none;
  totp_enabled = false;
  failed_login_count = 0;
  locked_until = none;
}

unfoldable pub take_access : ResetMode → String → Account → Account
take_access password_only hash a = without_password hash a
take_access totp_only hash a = without_totp a
take_access password_totp hash a = without_totp (without_password hash a)

abbrev pub audit_reset : Context → Option ℕ → String → ℕ → String → Tx Db (Unit {0})
audit_reset ctx actor event target reason = write_audit (record {
  event_type = event;
  actor = actor;
  target_id = some target;
  source_ip = ctx.source_ip;
  reason = reason;
})

-- `create_reset`, with the link's token; `unknown` is the emergency password and its salt
unfoldable pub create_reset :
    Env → Context → String × String → Operator → ℕ → ResetRequest → Tx Db (Reply String)
create_reset env ctx unknown o id r = do
  target ← fetch_account id
  raise_if (target.id == o.account_id)
      (http 409 "Use Manager self-service to change your own access")
  at ←
      verify_owner_reauthentication env ctx.now o.account_id (some r.proof_password)
        (some r.proof_totp_code)
  modify (λ db. record db { resets = revoke_resets ctx.now target.id db.resets })
  modify (λ db. record db {
    accounts =
        update_account target (take_access r.reset_mode (env.crypt unknown.0 unknown.1))
          db.accounts;
  })
  modify (λ db. record db { sessions = revoke_account_sessions ctx.now target.id db.sessions })
  insert_reset (new_reset env ctx target.id r.reset_mode o.account_id)
  audit_reset ctx (some o.account_id) "operator.access_reset_created" target.id (env.strip r.reason)
  pure (accepted ("rdrst_" <> ctx.fresh_token))

-- What `create_self_reset` asks of the operator's row.
unfoldable pub proves_self : Env → ℕ → ResetRequest → Option Account → Bool
proves_self env now r none = false
proves_self env now r (some a) =
    a.is_active
    && env.crypt_matches r.proof_password a.password_hash
    && code_fits env now a.totp_secret r.proof_totp_code

-- `create_self_reset`, with the link's token
unfoldable pub create_self_reset : Env → Context → Operator → ResetRequest → Tx Db (Reply String)
create_self_reset env ctx o r = do
  proven ← gets (λ db. proves_self env ctx.now r (live_account o.account_id db.accounts))
  raise_if (not proven) (http 401 "Current password or authenticator code is invalid")
  modify (λ db. record db { resets = revoke_resets ctx.now o.account_id db.resets })
  insert_reset (new_reset env ctx o.account_id r.reset_mode o.account_id)
  audit_reset ctx (some o.account_id) "operator.self_access_reset_created" o.account_id
      (env.strip r.reason)
  pure (accepted ("rdrst_" <> ctx.fresh_token))

-- The row of a token, whose account is joined unless it is deleted.
unfoldable pub has_reset_token : Env → String → List Account → Reset → Bool
has_reset_token env token accounts r =
    str_eq r.token_hash (reset_token_hash env token)
    && not (is_null (live_account r.account_id accounts))

-- `get_reset`: the link and its account
unfoldable pub get_reset : Env → ℕ → String → Tx Db (Reset × Account)
get_reset env now token = do
  selected ← gets (λ db. find_where (has_reset_token env token db.accounts) db.resets)
  r ← found selected (http 404 "Recovery link is invalid")
  account ← gets (λ db. live_account r.account_id db.accounts)
  a ← found account (http 404 "Recovery link is invalid")
  raise_if (not (is_null r.used_at) || not (is_null r.revoked_at))
      (http 410 "Recovery link has already been used or revoked")
  raise_if (leb r.expires_at now) (http 410 "Recovery link has expired")
  pure (r, a)

-- `operator_access_reset_setup`, with the new secret if there is one
unfoldable pub operator_access_reset_setup : Env → ℕ → String → Tx Db (Reply (Option String))
operator_access_reset_setup env now token = do
  row ← get_reset env now token
  pure (accepted (if resets_totp row.0.reset_mode then some (b32_hmac_secret env token) else none))

-- The secret that the code is checked against.
unfoldable pub secret_for : Env → String → ResetMode → Account → Option String
secret_for env token mode a =
    if resets_totp mode then some (b32_hmac_secret env token) else a.totp_secret

abbrev pub is_short : Option String → Bool
is_short none = true
is_short (some password) = ltb (text_length password) 12

unfoldable pub with_password : String → Account → Account
with_password hash a = record a {
  password_hash = hash;
  must_change_password = false;
  failed_login_count = 0;
  locked_until = none;
}

unfoldable pub with_totp : Option String → Account → Account
with_totp secret a = record a {
  totp_secret = secret;
  totp_enabled = true;
  failed_login_count = 0;
  locked_until = none;
}

-- The UPDATE of each mode.
unfoldable pub give_access : ResetMode → String → Option String → Account → Account
give_access password_only hash secret a = with_password hash a
give_access totp_only hash secret a = with_totp secret a
give_access password_totp hash secret a = with_totp secret (with_password hash a)

-- SET revoked_at = COALESCE(revoked_at, …) WHERE account_id = …
unfoldable pub end_sessions : ℕ → ℕ → List Session → List Session
end_sessions now account sessions =
    update_where (λ s. s.account_id == account)
      (λ s. record s { revoked_at = coalesce s.revoked_at (some now) }) sessions

abbrev or_blank : Option String → String
or_blank none = ""
or_blank (some text) = text

-- `operator_access_reset_accept`
unfoldable pub operator_access_reset_accept :
    Env → Context → String → ResetAcceptRequest → Tx Db (Reply (Unit {0}))
operator_access_reset_accept env ctx salt p = do
  row ← get_reset env ctx.now p.reset_token
  raise_if (resets_password row.0.reset_mode && is_short p.password)
      (http 422 "A new password of at least 12 characters is required")
  let secret = secret_for env p.reset_token row.0.reset_mode row.1
  raise_if (not (code_fits env ctx.now secret p.totp_code))
      (http 401 "Authenticator code is invalid")
  modify (λ db. record db {
    accounts =
        update_account row.1
          (give_access row.0.reset_mode (env.crypt (or_blank p.password) salt) secret) db.accounts;
    resets =
        update_where (λ r. r.id == row.0.id) (λ r. record r { used_at = some ctx.now }) db.resets;
    sessions = end_sessions ctx.now row.1.id db.sessions;
  })
  audit_reset ctx none "operator.access_reset_completed" row.1.id ""
  pure (accepted tt)
