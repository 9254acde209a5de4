-- ===== src/Operators/Promoted.antt =====
-- What the completion of a role change does, when nothing stands against it.
use rustdesk_managed_directo.Common.{
  ℕ, String, ◌≡◌, ◌≢◌, ap, refl, true, false, not, ◌&&◌, ◌||◌, some, List, [], ◌∷◌, ◌==◌, ==_iff,
  find_where_sound, arith, leb, str_eq, is_null, if◌then◌else◌, find_where, exists_where,
  update_where,
}
use rustdesk_managed_directo.Http.{http, Outcome, done, raised, Tx, ◌>>=◌}
use rustdesk_managed_directo.Http.Keeps.{Ends, Returns}
use rustdesk_managed_directo.Store.{
  Account, RoleChange, Role, Db, is_owner, is_pending_change, same_role,
}
use rustdesk_managed_directo.Store.Env.{Env}
use rustdesk_managed_directo.Store.Queries.{write_audit}
use rustdesk_managed_directo.Lifecycle.{Context}
use rustdesk_managed_directo.Operators.Gates.{Operator}
use rustdesk_managed_directo.Operators.Sessions.{require_operator}
use rustdesk_managed_directo.Operators.SignIn.{update_account}
use rustdesk_managed_directo.Operators.Accounts.{
  is_protected_brad_account, is_other_owner, live_account, fetch_account, audit_account,
}
use rustdesk_managed_directo.Operators.Changes.{
  account_row, is_active_owner_row, is_unproven, is_unprepared, set_change, as_conflict,
}
use rustdesk_managed_directo.Operators.Completion.{
  fetch_change, completed_by_owner, update_role, apply_completed_change, complete_change,
  complete_operator_role_change_request,
}
use rustdesk_managed_directo.Operators.Revoked.{revoke_account_sessions-Out, require_operator-Out}

-- The request is pending and not expired, of an active account that is neither deleted nor protected nor
-- the completer's, and asks for another role, for which it and the account have what an Owner needs; who
-- completes it is an active Owner.
pub record Completable (env : Env) (now : ℕ) (o : Operator) (id : ℕ) (db : Db) (c : RoleChange)
    (a : Account) : Type 0 where
  pub row : find_where (λ d. d.id == id) db.role_changes ≡ some c
  pub target : account_row c.target_account_id db.accounts ≡ some a
  pub waits : is_pending_change c.status ≡ true
  pub lasts : leb c.expires_at now ≡ false
  pub open_to_change : is_protected_brad_account env a ≡ false
  pub not_brad : str_eq (env.lower a.username) "brad" ≡ false
  pub another : (c.target_account_id == o.account_id) ≡ false
  pub active : a.is_active ≡ true
  pub present : is_null a.deleted_at ≡ true
  pub changes : same_role a.role c.requested_role ≡ false
  pub proven : is_unproven c ≡ false
  pub prepared : is_unprepared c.requested_role a ≡ false
  pub completer : is_active_owner_row (account_row o.account_id db.accounts) ≡ true

-- The completer is an active Owner beside the target.
completer-other :
    (id : ℕ) (a : Account) (accounts : List Account)
    → is_active_owner_row (account_row id accounts) ≡ true
    → (a.id == id) ≡ false
    → exists_where (is_other_owner a) accounts ≡ true
unfolding account_row is_active_owner_row find_where exists_where is_other_owner
completer-other id a [] h off = cc h
completer-other id a (b ∷ accounts) h off = ground (arith, h, off, completer-other id a accounts)

live_account-update :
    (id : ℕ) (a a' : Account) (accounts : List Account)
    → account_row id accounts ≡ some a
    → (a'.id == id && is_null a'.deleted_at) ≡ true
    → live_account id (update_where (λ b. b.id == a.id) (λ b. a') accounts) ≡ some a'
unfolding account_row live_account find_where update_where
live_account-update id a a' [] h on = cc h
live_account-update id a a' (b ∷ accounts) h on =
    ground (arith, h, on, live_account-update id a a' accounts)

not_protected :
    (env : Env) (a : Account) → is_protected_brad_account env a ≡ false → (a.id == 0) ≡ false
unfolding is_protected_brad_account
not_protected env a h = ground (arith, h)

-- The triggers let the role through: another active Owner is there.
update_role-done :
    (env : Env) (a : Account) (role : Role) (db : Db)
    → exists_where (is_other_owner a) db.accounts ≡ true
    → (a.id == 0) ≡ false
    → str_eq (env.lower a.username) "brad" ≡ false
    → update_role env a role db
      ≡ done tt (record db {
        accounts = update_where (λ b. b.id == a.id) (λ b. record a { role = role }) db.accounts;
      })
unfolding update_role update_account ◌>>=◌
update_role-done env a role db others nonzero not_brad =
    let last : (is_owner a.role
          && a.is_active
          && not (is_owner role)
          && not (exists_where (is_other_owner a) db.accounts))
        ≡ false =
      ground (arith, others) in
    let brad : (not (same_role a.role role) && (a.id == 0 || str_eq (env.lower a.username) "brad"))
        ≡ false =
      ground (arith, nonzero, not_brad) in
    rw (last, brad) refl

as_conflict-Returns :
    {A : Type 0} (Q : A → Db → Type 0) (m : Tx Db A) (db : Db)
    → Returns Q (m db)
    → Returns Q (as_conflict m db)
unfolding as_conflict
as_conflict-Returns {A} Q m db h = go (m db) h
  where
    go :
        (r : Outcome Db A)
        → Returns Q r
        → Returns Q (
            let t : Outcome Db A = elim r [
              | done a u ↦ done a u
              | raised e ↦ raised (if e.status_code == 500 then http 409 e.detail else e)
            ] in
            t)
    go (done a t) h = h
    go (raised e) h = h

-- When nothing stands against it, the completion always returns; the target has the role that was asked
-- for, and no other row changes; and no access token lets a request in for the target, at any time.
pub complete-applies :
    (env : Env) (ctx : Context) (o : Operator) (id : ℕ) (reason : String) (db : Db) (c : RoleChange)
    (a : Account)
    → Completable env ctx.now o id db c a
    → (later : ℕ) (token : String)
    → Returns
        (λ _ t.
          (t.accounts ≡ update_account a (λ b. record b { role = c.requested_role }) db.accounts)
          × Ends
              (λ p _. p.account_id ≢ c.target_account_id)
              (require_operator env later (some token) t))
        (complete_operator_role_change_request env ctx o id reason db)
unfolding complete_operator_role_change_request fetch_change complete_change apply_completed_change
    account_row update_account fetch_account audit_account write_audit ◌>>=◌
complete-applies env ctx o id reason db c a h later token =
    let same : a.id ≡ c.target_account_id =
      (==_iff a.id c.target_account_id).0 (find_where_sound _ db.accounts h.target) in
    let others : exists_where (is_other_owner a) db.accounts ≡ true =
      completer-other o.account_id a db.accounts h.completer (rw same h.another) in
    let turned : (o.account_id == c.target_account_id) ≡ false = ground (arith, h.another) in
    as_conflict-Returns _ _ db (
      rw (h.row, h.target, h.waits, h.lasts, h.open_to_change, h.another)
        (simp (h.active) (
          rw
            (
              h.changes,
              h.proven,
              h.prepared,
              h.completer,
              turned,
              update_role-done env a c.requested_role
                  (record db {
                    role_changes =
                        set_change c.id (completed_by_owner o.account_id) db.role_changes;
                  })
                  others (not_protected env a h.open_to_change) h.not_brad,
              live_account-update c.target_account_id a (record a { role = c.requested_role })
                  db.accounts h.target (ground (arith, same, h.present)),
            )
            (
              ap
                  (λ v.
                    update_where (λ b. b.id == a.id)
                      (λ b. record a { role = c.requested_role; is_active = v }) db.accounts)
                  h.active,
              require_operator-Out env later token _ c.target_account_id
                  (rw (← same) (revoke_account_sessions-Out a a.id ctx.now db.sessions refl)),
            ))))
