-- ===== src/Operators/SignedOut.antt =====
-- What `logout` ends: the session, for its access tokens and its refresh tokens.
use rustdesk_managed_directo.Common.{
  ℕ, String, ◌≡◌, ◌≢◌, false, ◌&&◌, some, List, ◌==◌, arith, is_null, All, All-intro,
  All-update_where, All-find_where, find_where_sound,
}
use rustdesk_managed_directo.Http.{◌>>=◌}
use rustdesk_managed_directo.Http.Keeps.{Ends, Returns}
use rustdesk_managed_directo.Store.{Session, Db}
use rustdesk_managed_directo.Store.Env.{Env, AccessClaims}
use rustdesk_managed_directo.Store.Queries.{write_audit}
use rustdesk_managed_directo.Lifecycle.{Context}
use rustdesk_managed_directo.Operators.Gates.{Operator}
use rustdesk_managed_directo.Operators.Sessions.{is_open_session, operator_row, require_operator}
use rustdesk_managed_directo.Operators.SignedIn.{joined-tells, require_operator-row}
use rustdesk_managed_directo.Operators.Refresh.{is_refreshable, refreshable, revoke_session, logout}

-- The session's rows are revoked.
abbrev pub Over : ℕ → Session → Type 0
Over id s = (s.id == id && is_null s.revoked_at) ≡ false

revoke_session-Over :
    (id : ℕ) (now : ℕ) (sessions : List Session) → All (Over id) (revoke_session id now sessions)
unfolding revoke_session
revoke_session-Over id now sessions =
    All-update_where {P = λ s. Unit {0}} _ _ (λ s h p. ground arith) (λ s h p. p) sessions
      (All-intro (λ s. Unit {0}) (λ s. tt) sessions)

-- A row of the query is not of a session that is over.
operator_row-open :
    (env : Env) (now : ℕ) (token : String) (db : Db) (claims : AccessClaims) (o : Operator) (id : ℕ)
    → All (Over id) db.sessions
    → operator_row env now claims token db ≡ some o
    → o.session_id ≢ id
unfolding operator_row is_open_session
operator_row-open env now token db claims o id over h e =
    let j = joined-tells db.accounts _ o h in
    let p = find_where_sound _ db.sessions j.2 in
    let q = All-find_where (Over id) _ db.sessions over j.2 in
    let k : j.0.id ≡ id = cc (j.4, e) in ground (arith, p, q, k)

require_operator-open :
    (env : Env) (now : ℕ) (token : String) (db : Db) (id : ℕ)
    → All (Over id) db.sessions
    → Ends (λ o _. o.session_id ≢ id) (require_operator env now (some token) db)
require_operator-open env now token db id over =
    require_operator-row env now token db (λ o. o.session_id ≢ id)
      (λ claims o h. operator_row-open env now token db claims o id over h)

refreshable-open :
    (env : Env) (now : ℕ) (token : String) (db : Db) (s : Session) (id : ℕ)
    → All (Over id) db.sessions
    → refreshable env now token db ≡ some s
    → s.id ≢ id
unfolding refreshable is_refreshable
refreshable-open env now token db s id over h e =
    let p = find_where_sound _ db.sessions h in
    let q = All-find_where (Over id) _ db.sessions over h in ground (arith, p, q, e)

-- After a logout, which always returns, no access token lets a request in on that session and no
-- refresh token selects it, at any time.
pub logout-Over :
    (env : Env) (ctx : Context) (o : Operator) (db : Db) (later : ℕ) (token : String)
    → Returns
        (λ _ t.
          Ends (λ p _. p.session_id ≢ o.session_id) (require_operator env later (some token) t)
          × ((s : Session) → refreshable env later token t ≡ some s → s.id ≢ o.session_id))
        (logout ctx o db)
unfolding logout write_audit ◌>>=◌
logout-Over env ctx o db later token =
    let over = revoke_session-Over o.session_id ctx.now db.sessions in
    (
      require_operator-open env later token _ o.session_id over,
      λ s h. refreshable-open env later token _ s o.session_id over h,
    )
