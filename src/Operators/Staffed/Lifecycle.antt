-- ===== src/Operators/Staffed/Lifecycle.antt =====
-- Disabling, enabling, unlocking and deleting keep the tables staffed.
use rustdesk_managed_directo.Common.{
  ℕ, String, ◌≡◌, refl, Bool, true, false, Option, none, some, List, arith, find_where,
}
use rustdesk_managed_directo.Common.Distinct.{Distinct-find_where}
use rustdesk_managed_directo.Http.{HttpError, Tx, http}
use rustdesk_managed_directo.Http.Keeps.{
  Ends, Hoare, Keeps, Hoare-bind, Hoare-gets, Hoare-raise_if, Hoare-modify, Hoare-pure, Hoare-pre,
  Hoare-if, Keeps-pure, Keeps-raise_if, Keeps-modify, Keeps-gets, Keeps-bind,
}
use rustdesk_managed_directo.Store.{Account, Audit, Db}
use rustdesk_managed_directo.Store.Env.{Env}
use rustdesk_managed_directo.Store.Queries.{found, write_audit}
use rustdesk_managed_directo.Lifecycle.{Context}
use rustdesk_managed_directo.Operators.Gates.{Operator}
use rustdesk_managed_directo.Operators.SignIn.{update_account}
use rustdesk_managed_directo.Operators.Accounts.{
  live_account, fetch_account, deactivate, activate, audit_account, refuse_protected, disable_live,
  disable_operator_account, enable_idle, enable_operator_account, unlock_operator_account,
  revoke_operator_sessions,
}
use rustdesk_managed_directo.Operators.Staffed.{account_id, Staffed, Held}
use rustdesk_managed_directo.Operators.Staffed.Updates.{Staffed-row, Staffed-plain}

-- A read that finds a row tells which.
pub Hoare-found :
    {A : Type 0} (P : Db → Type 0) (o : Option A) (e : HttpError)
    → Hoare P (found o e) (λ a s. P s × (o ≡ some a))
Hoare-found P none e = record { at = λ s h. tt }
Hoare-found P (some a) e = record { at = λ s h. (h, refl) }

module _ (start : List Account) where
  pub audit-Staffed : (a : Audit) → Keeps (Staffed start) (write_audit a)
  unfolding write_audit
  audit-Staffed a = record { at = λ s h. h }

  -- A row that is there or not.
  pub take-Staffed : {A : Type 0} (o : Option A) (e : HttpError) → Keeps (Staffed start) (found o e)
  take-Staffed none e = record { at = λ s h. tt }
  take-Staffed (some a) e = record { at = λ s h. h }

  -- A row that a query on the tables finds is the only one with its id.
  pub Held-found :
      (p : Account → Bool) (a : Account) (db : Db)
      → find_where p db.accounts ≡ some a
      → Staffed start db
      → Held start a db
  Held-found p a db e h = (h, Distinct-find_where account_id p db.accounts h.0 e)

  pub fetch_account-Held : (id : ℕ) → Hoare (Staffed start) (fetch_account id) (Held start)
  unfolding fetch_account live_account
  fetch_account-Held id = record { at = λ s h. go s h (live_account id s.accounts) refl }
    where
      go :
          (s : Db)
          → Staffed start s
          → (r : Option Account) → live_account id s.accounts ≡ r
          → Ends (Held start) (found r (http 404 "Operator account was not found") s)
      go s h none e = tt
      go s h (some a) e = Held-found _ a s e h

  -- With the row at hand a transaction may change it.
  pub release :
      {A : Type 0} (a : Account) (m : Tx Db A)
      → Keeps (Staffed start) m
      → Hoare (Held start a) m (λ _ s. Staffed start s)
  release a m k = Hoare-pre m (λ s h. h.0) k

  deactivate-Staffed :
      (env : Env) (a : Account) → Hoare (Held start a) (deactivate env a) (λ _ s. Staffed start s)
  unfolding deactivate update_account
  deactivate-Staffed env a = Hoare-bind _ _ (Hoare-gets {P = Held start a} _) λ others.
      Hoare-bind _ _ (Hoare-raise_if _ _) λ _. Hoare-bind _ _ (Keeps-raise_if _ _) λ _.
        Hoare-modify _ λ s h.
          Staffed-row start a (record a { is_active = false }) s refl (λ e. e)
            (ground (arith, h.1, h.0.1)) h.0.0

  activate-Staffed :
      (env : Env) (a : Account) → Hoare (Held start a) (activate env a) (λ _ s. Staffed start s)
  unfolding activate update_account
  activate-Staffed env a = Hoare-bind _ _ (Keeps-raise_if {P = Held start a} _ _) λ _.
      Hoare-modify _
        λ s h. Staffed-row start a (record a { is_active = true }) s refl (λ e. e) (ground arith) h

  pub audit_account-Staffed :
      (ctx : Context) (o : Operator) (event : String) (id : ℕ) (reason : String)
      → Keeps (Staffed start) (audit_account ctx o event id reason)
  unfolding audit_account
  audit_account-Staffed ctx o event id reason = audit-Staffed _

  pub refuse_protected-Staffed :
      (ctx : Context) (o : Operator) (id : ℕ) (action : String)
      → Keeps (Staffed start) (refuse_protected ctx o id action)
  unfolding refuse_protected
  refuse_protected-Staffed ctx o id action =
      Keeps-bind _ _ (audit_account-Staffed ctx o _ id action) λ _. Keeps-pure _

  disable_live-Staffed :
      (env : Env) (ctx : Context) (o : Operator) (a : Account) (reason : String)
      → Hoare (Held start a) (disable_live env ctx o a reason) (λ _ s. Staffed start s)
  unfolding disable_live
  disable_live-Staffed env ctx o a reason = Hoare-bind _ _ (deactivate-Staffed env a) λ _.
      Hoare-bind _ _ (Keeps-modify _ λ s h. h)
        λ _. Hoare-bind _ _ (audit_account-Staffed ctx o _ a.id _) λ _. Keeps-pure _

  pub disable-Staffed :
      (env : Env) (ctx : Context) (o : Operator) (id : ℕ) (reason : String)
      → Keeps (Staffed start) (disable_operator_account env ctx o id reason)
  unfolding disable_operator_account
  disable-Staffed env ctx o id reason = Hoare-bind _ _ (fetch_account-Held id) λ a.
      Hoare-if _ _ _ (release a _ (refuse_protected-Staffed ctx o a.id "disable")) (
        Hoare-bind _ _ (Keeps-raise_if _ _)
          λ _. Hoare-if _ _ _ (disable_live-Staffed env ctx o a reason) (Hoare-pure _ λ s h. h.0))

  enable_idle-Staffed :
      (env : Env) (ctx : Context) (o : Operator) (a : Account) (reason : String)
      → Hoare (Held start a) (enable_idle env ctx o a reason) (λ _ s. Staffed start s)
  unfolding enable_idle
  enable_idle-Staffed env ctx o a reason =
      Hoare-bind _ _ (activate-Staffed env a)
        λ _. Hoare-bind _ _ (audit_account-Staffed ctx o _ a.id _) λ _. Keeps-pure _

  pub enable-Staffed :
      (env : Env) (ctx : Context) (o : Operator) (id : ℕ) (reason : String)
      → Keeps (Staffed start) (enable_operator_account env ctx o id reason)
  unfolding enable_operator_account
  enable-Staffed env ctx o id reason = Hoare-bind _ _ (fetch_account-Held id) λ a.
      Hoare-if _ _ _ (release a _ (refuse_protected-Staffed ctx o a.id "enable")) (
        Hoare-bind _ _ (Keeps-raise_if _ _)
          λ _. Hoare-if _ _ _ (Hoare-pure _ λ s h. h.0) (enable_idle-Staffed env ctx o a reason))

  pub unlock-Staffed :
      (env : Env) (ctx : Context) (o : Operator) (id : ℕ) (reason : String)
      → Keeps (Staffed start) (unlock_operator_account env ctx o id reason)
  unfolding unlock_operator_account update_account
  unlock-Staffed env ctx o id reason = Hoare-bind _ _ (fetch_account-Held id) λ a.
      Hoare-bind _ _
        (Hoare-modify {P = Held start a} {Q = λ _ s. Staffed start s} _ λ s h.
          Staffed-plain start a (record a { failed_login_count = 0; locked_until = none }) s refl
            refl refl h)
        λ _. Hoare-bind _ _ (audit_account-Staffed ctx o _ a.id _) λ _. Keeps-pure _

  pub end_sessions-Staffed :
      (env : Env) (ctx : Context) (o : Operator) (id : ℕ) (reason : String)
      → Keeps (Staffed start) (revoke_operator_sessions env ctx o id reason)
  unfolding revoke_operator_sessions
  end_sessions-Staffed env ctx o id reason = Hoare-bind _ _ (fetch_account-Held id) λ a.
      release a _ (
        Keeps-bind _ _ (Keeps-gets _) λ n.
          Keeps-bind _ _ (Keeps-modify _ λ s h. h)
            λ _. Keeps-bind _ _ (audit_account-Staffed ctx o _ a.id _) λ _. Keeps-pure _)
