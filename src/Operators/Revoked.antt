-- ===== src/Operators/Revoked.antt =====
-- What `revoke_operator_sessions` ends: every session that the account has.
use rustdesk_managed_directo.Common.{
  ℕ, String, ◌≡◌, ◌≢◌, false, ◌&&◌, some, List, ◌==◌, arith, is_null, All, All-intro,
  All-update_where, All-find_where, find_where_sound,
}
use rustdesk_managed_directo.Http.{◌>>=◌}
use rustdesk_managed_directo.Http.Keeps.{Ends, Returns}
use rustdesk_managed_directo.Store.{Account, Session, Db}
use rustdesk_managed_directo.Store.Env.{Env, AccessClaims}
use rustdesk_managed_directo.Store.Queries.{write_audit}
use rustdesk_managed_directo.Lifecycle.{Context}
use rustdesk_managed_directo.Operators.Gates.{Operator}
use rustdesk_managed_directo.Operators.Sessions.{is_open_session, operator_row, require_operator}
use rustdesk_managed_directo.Operators.SignedIn.{joined-tells, require_operator-row}
use rustdesk_managed_directo.Operators.Accounts.{
  live_account, fetch_account, revoke_account_sessions, audit_account, revoke_operator_sessions,
}

-- The account's sessions are revoked.
abbrev pub Out : ℕ → Session → Type 0
Out id s = (s.account_id == id && is_null s.revoked_at) ≡ false

pub revoke_account_sessions-Out :
    (a : Account) (id : ℕ) (now : ℕ) (sessions : List Session)
    → a.id ≡ id
    → All (Out id) (revoke_account_sessions now a.id sessions)
unfolding revoke_account_sessions
revoke_account_sessions-Out a id now sessions same =
    All-update_where {P = λ s. Unit {0}} _ _ (λ s h p. ground arith)
      (λ s h p. ground (arith, p, same)) sessions (All-intro (λ s. Unit {0}) (λ s. tt) sessions)

operator_row-Out :
    (env : Env) (now : ℕ) (token : String) (db : Db) (claims : AccessClaims) (o : Operator) (id : ℕ)
    → All (Out id) db.sessions
    → operator_row env now claims token db ≡ some o
    → o.account_id ≢ id
unfolding operator_row is_open_session
operator_row-Out env now token db claims o id out h e =
    let j = joined-tells db.accounts _ o h in
    let p = find_where_sound _ db.sessions j.2 in
    let q = All-find_where (Out id) _ db.sessions out j.2 in
    let k : j.0.account_id ≡ id = cc (j.4, e) in ground (arith, p, q, k)

pub require_operator-Out :
    (env : Env) (now : ℕ) (token : String) (db : Db) (id : ℕ)
    → All (Out id) db.sessions
    → Ends (λ o _. o.account_id ≢ id) (require_operator env now (some token) db)
require_operator-Out env now token db id out =
    require_operator-row env now token db (λ o. o.account_id ≢ id)
      (λ claims o h. operator_row-Out env now token db claims o id out h)

-- Revoking the sessions of an account that is not deleted always returns, and on the tables that it
-- leaves no access token lets a request in for that account, at any time.
pub revoke_operator_sessions-Out :
    (env : Env) (ctx : Context) (o : Operator) (id : ℕ) (reason : String) (db : Db) (a : Account)
    → live_account id db.accounts ≡ some a
    → (later : ℕ) (token : String)
    → Returns
        (λ _ t. Ends (λ p _. p.account_id ≢ id) (require_operator env later (some token) t))
        (revoke_operator_sessions env ctx o id reason db)
unfolding revoke_operator_sessions fetch_account audit_account write_audit live_account ◌>>=◌
revoke_operator_sessions-Out env ctx o id reason db a live later token =
    let p = find_where_sound _ db.accounts live in
    let same : a.id ≡ id = ground (arith, p) in
    rw live (
      require_operator-Out env later token _ id
        (revoke_account_sessions-Out a id ctx.now db.sessions same))
