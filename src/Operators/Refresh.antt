-- ===== src/Operators/Refresh.antt =====
-- main.py `refresh` and `logout`.
use rustdesk_managed_directo.Common.{
  ℕ, String, ◌+◌, ◌<>◌, Bool, not, ◌&&◌, ◌||◌, Option, none, some, List, ◌==◌, str_eq, ltb,
  if◌then◌else◌, is_null, find_where, update_where,
}
use rustdesk_managed_directo.Http.{
  unauthorized, Tx, Reply, accepted, pure, gets, modify, ◌>>=◌, ◌>>◌,
}
use rustdesk_managed_directo.Store.{Session, Setting, Db, is_mobile}
use rustdesk_managed_directo.Store.Env.{Env}
use rustdesk_managed_directo.Store.Queries.{found, token_hash, write_audit}
use rustdesk_managed_directo.Lifecycle.{Context}
use rustdesk_managed_directo.Operators.Gates.{Operator}
use rustdesk_managed_directo.Operators.Sessions.{operator_idle_timeout, joined}
use rustdesk_managed_directo.Operators.SignIn.{
  Tokens, issue_access_token, access_seconds, mobile_session_seconds,
}

-- The WHERE on the session's own columns.
unfoldable pub is_refreshable : Env → ℕ → ℕ → String → Session → Bool
is_refreshable env now idle token s =
    str_eq s.refresh_token_hash (token_hash env token)
    && is_null s.revoked_at
    && ltb now s.expires_at
    && not (is_null s.mfa_verified_at)
    && (is_mobile s.scope
        || ltb now ((elim s.last_seen_at [ none ↦ s.created_at | some t ↦ t ]) + idle))

-- A session of the query, with what the join adds.
unfoldable pub refreshable : Env → ℕ → String → Db → Option Session
unfolding is_refreshable
refreshable env now token db =
    find_where (is_refreshable env now (operator_idle_timeout env db.settings) token) db.sessions

-- The session's end after a refresh: a rolling window for mobile sessions only.
unfoldable pub renewed_end : Env → ℕ → Session → List Setting → ℕ
renewed_end env now s settings =
    if is_mobile s.scope then now + mobile_session_seconds env settings else s.expires_at

unfoldable pub rotate : ℕ → String → String → ℕ → ℕ → List Session → List Session
rotate id access refresh now end sessions =
    update_where (λ s. s.id == id)
      (λ s. record s {
        access_token_hash = access;
        refresh_token_hash = refresh;
        last_seen_at = some now;
        expires_at = end;
      })
      sessions

-- The statements behind the query.
unfoldable pub rotate_session : Env → Context → Session → Operator → Tx Db (Reply Tokens)
rotate_session env ctx s o = do
  settings ← gets (λ db. db.settings)
  let access = issue_access_token env ctx s.account_id s.id o.role s.scope settings
  let refresh_token = "rdr_" <> ctx.fresh_token
  let end = renewed_end env ctx.now s settings
  modify (λ db. record db {
    sessions =
        rotate s.id (token_hash env access) (token_hash env refresh_token) ctx.now end db.sessions;
  })
  write_audit (record {
    event_type = "operator.session_refreshed";
    actor = some s.account_id;
    target_id = some s.account_id;
    source_ip = ctx.source_ip;
    reason = "";
  })
  pure (
      accepted (record {
        access_token = access;
        refresh_token = refresh_token;
        access_expires_at = ctx.now + access_seconds env settings;
        session_expires_at = end;
        account_id = s.account_id;
      }))

-- `refresh`. The row of the query is the session's with the account's.
unfoldable pub refresh : Env → Context → String → Tx Db (Reply Tokens)
refresh env ctx token = do
  session ← (λ db. found (refreshable env ctx.now token db) unauthorized db)
  operator ← (λ db. found (joined db.accounts (some session)) unauthorized db)
  rotate_session env ctx session operator

unfoldable pub revoke_session : ℕ → ℕ → List Session → List Session
revoke_session id now sessions =
    update_where (λ s. s.id == id && is_null s.revoked_at) (λ s. record s { revoked_at = some now })
      sessions

-- `logout`, for an operator that `require_operator` let through.
unfoldable pub logout : Context → Operator → Tx Db (Reply (Unit {0}))
logout ctx o = do
  modify (λ db. record db { sessions = revoke_session o.session_id ctx.now db.sessions })
  write_audit (record {
    event_type = "operator.logout";
    actor = some o.account_id;
    target_id = some o.account_id;
    source_ip = ctx.source_ip;
    reason = "";
  })
  pure (accepted tt)
