-- ===== src/Operators/RoundTrip.antt =====
-- A sign-in, and a request with the tokens that it gave.
use rustdesk_managed_directo.Common.{
  ℕ, String, ◌≡◌, refl, true, false, ◌&&◌, ◌||◌, some, List, [], ◌∷◌, ◌==◌, ◌+◌, ◌<◌, arith,
  str_eq_iff, ltb, find_where, update_where,
}
use rustdesk_managed_directo.Http.{Reply, accepted, refused, Tx, raise, ◌>>=◌}
use rustdesk_managed_directo.Http.Keeps.{Returns}
use rustdesk_managed_directo.Store.{Account, Scope, Db, is_mobile}
use rustdesk_managed_directo.Store.Env.{Env, AccessClaims}
use rustdesk_managed_directo.Store.Queries.{found, token_hash, write_audit}
use rustdesk_managed_directo.Lifecycle.{Context}
use rustdesk_managed_directo.Operators.Gates.{Operator}
use rustdesk_managed_directo.Operators.Sessions.{
  operator_idle_timeout, is_open_session, active_account, operator_of, joined, operator_row,
  access_claims, operator_with, require_operator,
}
use rustdesk_managed_directo.Operators.SignIn.{
  LoginRequest, Tokens, access_claims_of, issue_access_token, session_seconds, find_account,
  is_unavailable, credentials_valid, clear_failures, new_session, update_account, insert_session,
  open_session, login_as, perform_login,
}

-- The request that follows a sign-in.
abbrev pub request_with : Env → ℕ → Reply Tokens → Tx Db Operator
request_with env later (accepted t) = require_operator env later (some t.access_token)
request_with env later (refused e) = raise e

active_account-update :
    (env : Env) (username : String) (accounts : List Account) (a b : Account)
    → (b.id == a.id && b.is_active) ≡ true
    → find_account env username accounts ≡ some a
    → active_account (update_account a (λ _. b) accounts) a.id ≡ some b
unfolding find_account active_account update_account find_where update_where
active_account-update env username [] a b on found = cc
active_account-update env username (c ∷ accounts) a b on found =
    ground (arith, on, active_account-update env username accounts a b)

module _ (env : Env) (ctx : Context) (scope : Scope) (r : LoginRequest) (a : Account)
    (later : ℕ) where
  -- The new session is open later, for the claims of its token.
  new_session-open :
      (db : Db) (claims : AccessClaims)
      → claims ≡ access_claims_of env ctx a.id ctx.fresh_id a.role scope db.settings
      → a.totp_enabled ≡ true
      → later < ctx.now + session_seconds env scope db.settings
      → (is_mobile scope || ltb later (ctx.now + operator_idle_timeout env db.settings)) ≡ true
      → is_open_session env later
          (operator_idle_timeout env db.settings)
          claims
          (issue_access_token env ctx a.id ctx.fresh_id a.role scope db.settings)
          (new_session env ctx scope a db.settings)
        ≡ true
  unfolding is_open_session
  new_session-open db claims c on before idle =
      let same =
        (str_eq_iff
            (token_hash env (issue_access_token env ctx a.id ctx.fresh_id a.role scope db.settings))
            (token_hash env
              (issue_access_token env ctx a.id ctx.fresh_id a.role scope db.settings))).1
          refl in
      rw c (ground (arith, same))

  -- The query finds the operator, in tables with the new session and the account after the sign-in.
  operator_row-new :
      (db t : Db) (b : Account)
      → t.sessions ≡ new_session env ctx scope a db.settings ∷ db.sessions
      → t.settings ≡ db.settings
      → active_account t.accounts a.id ≡ some b
      → a.totp_enabled ≡ true
      → later < ctx.now + session_seconds env scope db.settings
      → (is_mobile scope || ltb later (ctx.now + operator_idle_timeout env db.settings)) ≡ true
      → operator_row env later
          (access_claims_of env ctx a.id ctx.fresh_id a.role scope db.settings)
          (issue_access_token env ctx a.id ctx.fresh_id a.role scope db.settings)
          t
        ≡ some (operator_of (new_session env ctx scope a db.settings) b)
  unfolding operator_row joined find_where
  operator_row-new db t b sessions settings account on before idle =
      rw (sessions, settings, new_session-open db _ refl on before idle, joined, account) refl

  require_operator-new :
      (db t : Db) (b : Account)
      → t.sessions ≡ new_session env ctx scope a db.settings ∷ db.sessions
      → t.settings ≡ db.settings
      → active_account t.accounts a.id ≡ some b
      → a.totp_enabled ≡ true
      → later < ctx.now + session_seconds env scope db.settings
      → (is_mobile scope || ltb later (ctx.now + operator_idle_timeout env db.settings)) ≡ true
      → env.decode_access
          (issue_access_token env ctx a.id ctx.fresh_id a.role scope db.settings)
          later
        ≡ some (access_claims_of env ctx a.id ctx.fresh_id a.role scope db.settings)
      → Returns
          (λ o _. o ≡ operator_of (new_session env ctx scope a db.settings) b)
          (require_operator env later
            (some (issue_access_token env ctx a.id ctx.fresh_id a.role scope db.settings))
            t)
  unfolding require_operator operator_with access_claims ◌>>=◌
  require_operator-new db t b sessions settings account on before idle reads =
      rw (access_claims, reads, operator_row-new db t b sessions settings account on before idle)
        refl

  -- The tables after the sign-in.
  abbrev signed_in : Db → Db
  signed_in db = record db {
    accounts = update_account a (clear_failures ctx.now) db.accounts;
    sessions = new_session env ctx scope a db.settings ∷ db.sessions;
    audit =
        record {
          event_type = "operator.login_succeeded";
          actor = some a.id;
          target_id = some a.id;
          source_ip = ctx.source_ip;
          reason = "";
        }
        ∷ db.audit;
  }

  -- An account that is active and not locked, with the right password and code, is given an access
  -- token with which a later request is let in as that account, as long as the session has not ended,
  -- has not been idle too long (a mobile one may be), and the token still decodes to its claims.
  pub perform_login-require_operator :
      (db : Db)
      → find_account env (env.strip r.username) db.accounts ≡ some a
      → is_unavailable ctx.now a ≡ false
      → credentials_valid env ctx.now a r ≡ true
      → later < ctx.now + session_seconds env scope db.settings
      → 0 < session_seconds env scope db.settings
      → (is_mobile scope || ltb later (ctx.now + operator_idle_timeout env db.settings)) ≡ true
      → env.decode_access
          (issue_access_token env ctx a.id ctx.fresh_id a.role scope db.settings)
          later
        ≡ some (access_claims_of env ctx a.id ctx.fresh_id a.role scope db.settings)
      → Returns
          (λ o _. o ≡ operator_of (new_session env ctx scope a db.settings) a)
          ((perform_login env ctx scope r >>= request_with env later) db)
  unfolding perform_login login_as open_session insert_session write_audit ◌>>=◌ clear_failures
      update_account
  perform_login-require_operator db selected free valid before lasting idle reads =
      let fits : ltb ctx.now (ctx.now + session_seconds env scope db.settings) ≡ true =
        ground arith in
      let on : a.totp_enabled ≡ true = ground (arith, valid) in
      rw (selected, free, valid, fits)
        (require_operator-new db (signed_in db) (clear_failures ctx.now a) refl refl
          (active_account-update env (env.strip r.username) db.accounts a (clear_failures ctx.now a)
            (ground (arith, free)) selected)
          on before idle reads)
