-- ===== src/Operators/Staffed/Access.antt =====
-- Signing in and out, links that reset access, and deletion keep the tables staffed.
use rustdesk_managed_directo.Common.{
  ℕ, String, ◌≡◌, ◌∙◌, refl, sym, Bool, true, false, Option, none, some, List, arith, ltb, ◌∷◌,
  All-intro, if◌then◌else◌,
}
use rustdesk_managed_directo.Http.{internal_error, modify, done, raised}
use rustdesk_managed_directo.Http.Keeps.{
  Ends, Hoare, Keeps, Hoare-bind, Hoare-gets, Hoare-raise_if, Hoare-modify, Hoare-pure, Hoare-pre,
  Hoare-if, Keeps-pure, Keeps-raise_if, Keeps-modify, Keeps-gets, Keeps-bind,
}
use rustdesk_managed_directo.Store.{
  Account, Reset, ResetMode, password_only, totp_only, password_totp, Session, Scope, Db,
}
use rustdesk_managed_directo.Store.Env.{Env}
use rustdesk_managed_directo.Store.Queries.{write_audit}
use rustdesk_managed_directo.Lifecycle.{Context}
use rustdesk_managed_directo.Operators.Gates.{Operator}
use rustdesk_managed_directo.Operators.SignIn.{
  LoginRequest, update_account, find_account, count_failure, clear_failures, login_failed,
  insert_session, open_session, fail_login, login_as, perform_login,
}
use rustdesk_managed_directo.Operators.Refresh.{logout}
use rustdesk_managed_directo.Operators.Accounts.{live_account, audit_account}
use rustdesk_managed_directo.Operators.Deletion.{
  cancel_changes, end_pending, mark_deleted, delete_operator_account,
}
use rustdesk_managed_directo.Operators.Resets.{
  ResetRequest, ResetAcceptRequest, insert_reset, without_password, without_totp, take_access,
  create_reset, create_self_reset, get_reset, with_password, with_totp, give_access,
  operator_access_reset_accept,
}
use rustdesk_managed_directo.Operators.Staffed.{Staffed, Held}
use rustdesk_managed_directo.Operators.Staffed.Updates.{Staffed-row, Staffed-plain, Staffed-changes}
use rustdesk_managed_directo.Operators.Staffed.Lifecycle.{
  Hoare-found, Held-found, take-Staffed, audit-Staffed, refuse_protected-Staffed,
  fetch_account-Held, release,
}
use rustdesk_managed_directo.Operators.Staffed.Changes.{pending-unfinished, verify-Keeps}

-- What a link's creation and its use leave of an account: all but the password and the authenticator.
abbrev Same : Account → Account → Type 0
Same a' a = (a'.id ≡ a.id) × (a'.role ≡ a.role) × (a'.is_active ≡ a.is_active)

take_access-Same :
    (mode : ResetMode) (hash : String) (a : Account) → Same (take_access mode hash a) a
unfolding take_access without_password without_totp
take_access-Same password_only hash a = (refl, refl, refl)
take_access-Same totp_only hash a = (refl, refl, refl)
take_access-Same password_totp hash a = (refl, refl, refl)

give_access-Same :
    (mode : ResetMode) (hash : String) (secret : Option String) (a : Account)
    → Same (give_access mode hash secret a) a
unfolding give_access with_password with_totp
give_access-Same password_only hash secret a = (refl, refl, refl)
give_access-Same totp_only hash secret a = (refl, refl, refl)
give_access-Same password_totp hash secret a = (refl, refl, refl)

module _ (start : List Account) where
  -- An UPDATE of the account that leaves id, role and activity alone.
  update_plain :
      (a : Account) (f : Account → Account)
      → Same (f a) a
      → Hoare
          (Held start a)
          (modify (λ db. record db { accounts = update_account a f db.accounts }))
          (λ _ s. Staffed start s)
  unfolding update_account
  update_plain a f same = Hoare-modify _ λ s h. Staffed-plain start a (f a) s same.0 same.1 same.2 h

  login_failed-Staffed :
      (ctx : Context) (id : Option ℕ) (reason : String)
      → Keeps (Staffed start) (login_failed ctx id reason)
  unfolding login_failed
  login_failed-Staffed ctx id reason = Keeps-bind _ _ (audit-Staffed start _) λ _. Keeps-pure _

  insert_session-Held : (x : Session) (a : Account) → Keeps (Held start a) (insert_session x)
  unfolding insert_session
  insert_session-Held x a = record { at = λ s h. go (ltb x.created_at x.expires_at) s h }
    where
      go :
          (b : Bool) (s : Db)
          → Held start a s
          → Ends
              (λ _ t. Held start a t)
              (if b
                then done tt (record s { sessions = x ∷ s.sessions })
                else raised (internal_error "operator_sessions_check"))
      go true s h = h
      go false s h = tt

  open_session-Staffed :
      (env : Env) (ctx : Context) (scope : Scope) (a : Account)
      → Hoare (Held start a) (open_session env ctx scope a) (λ _ s. Staffed start s)
  unfolding open_session clear_failures
  open_session-Staffed env ctx scope a =
      Hoare-bind _ _ (Keeps-gets {P = Held start a} _) λ settings.
        Hoare-bind _ _ (insert_session-Held _ a) λ _.
          Hoare-bind _ _ (update_plain a (clear_failures ctx.now) (refl, refl, refl))
            λ _. Hoare-bind _ _ (audit-Staffed start _) λ _. Keeps-pure _

  fail_login-Staffed :
      (env : Env) (ctx : Context) (a : Account) (r : LoginRequest)
      → Hoare (Held start a) (fail_login env ctx a r) (λ _ s. Staffed start s)
  unfolding fail_login count_failure
  fail_login-Staffed env ctx a r =
      Hoare-bind _ _ (update_plain a (count_failure ctx.now) (refl, refl, refl))
        λ _. login_failed-Staffed ctx (some a.id) _

  pub sign_in-Staffed :
      (env : Env) (ctx : Context) (scope : Scope) (r : LoginRequest)
      → Keeps (Staffed start) (perform_login env ctx scope r)
  unfolding perform_login login_as find_account
  sign_in-Staffed env ctx scope r = Hoare-bind _ _ (Hoare-gets {P = Staffed start} _) λ a. go a
    where
      go :
          (o : Option Account)
          → Hoare
              (λ s. Staffed start s × (o ≡ find_account env (env.strip r.username) s.accounts))
              (login_as env ctx scope r o)
              (λ _ s. Staffed start s)
      go none = Hoare-pre _ (λ s h. h.0) (login_failed-Staffed ctx none _)
      go (some a) =
          Hoare-pre _ (λ s h. Held-found start _ a s (sym h.1) h.0)
            (Hoare-if _ _ _ (release start a _ (login_failed-Staffed ctx (some a.id) _)) (
              Hoare-if _ _ _ (open_session-Staffed env ctx scope a)
                (fail_login-Staffed env ctx a r)))

  pub sign_out-Staffed : (ctx : Context) (o : Operator) → Keeps (Staffed start) (logout ctx o)
  unfolding logout
  sign_out-Staffed ctx o =
      Keeps-bind _ _ (Keeps-modify _ λ s h. h)
        λ _. Keeps-bind _ _ (audit-Staffed start _) λ _. Keeps-pure _

  mark_deleted-Staffed :
      (env : Env) (now : ℕ) (a : Account)
      → Hoare (Held start a) (mark_deleted env now a) (λ _ s. Staffed start s)
  unfolding mark_deleted update_account
  mark_deleted-Staffed env now a = Hoare-bind _ _ (Hoare-gets {P = Held start a} _) λ others.
      Hoare-bind _ _ (Hoare-raise_if _ _) λ _. Hoare-bind _ _ (Keeps-raise_if _ _) λ _.
        Hoare-modify _ λ s h.
          Staffed-row start a (record a { deleted_at = some now; is_active = false }) s refl
            (λ e. e) (ground (arith, h.0.1, h.1)) h.0.0

  pub delete-Staffed :
      (env : Env) (ctx : Context) (o : Operator) (id : ℕ) (reason : String)
      → Keeps (Staffed start) (delete_operator_account env ctx o id reason)
  unfolding delete_operator_account end_pending cancel_changes write_audit audit_account
  delete-Staffed env ctx o id reason = Hoare-bind _ _ (fetch_account-Held start id) λ a.
      Hoare-if _ _ _ (release start a _ (refuse_protected-Staffed start ctx o a.id "delete")) (
        Hoare-bind _ _ (Keeps-raise_if _ _) λ _. Hoare-bind _ _ (Keeps-raise_if _ _) λ _.
          Hoare-bind _ _
            (Keeps-modify {P = Held start a} _ λ s h. (
              Staffed-changes start _ _ s (λ c. refl)
                  (All-intro _ (λ c k. pending-unfinished c.status (ground (arith, k)))
                    s.role_changes)
                  h.0,
              h.1,
            ))
            λ _.
              Hoare-bind _ _ (record { at = λ s h. h })
                λ _. Hoare-bind _ _ (mark_deleted-Staffed env ctx.now a) λ _. Keeps-pure _)

  insert_reset-Staffed : (r : Reset) → Keeps (Staffed start) (insert_reset r)
  unfolding insert_reset
  insert_reset-Staffed r =
      Keeps-bind _ _ (Keeps-gets _)
        λ c. Keeps-bind _ _ (Keeps-raise_if _ _) λ _. Keeps-modify _ λ s h. h

  pub reset_self-Staffed :
      (env : Env) (ctx : Context) (o : Operator) (r : ResetRequest)
      → Keeps (Staffed start) (create_self_reset env ctx o r)
  unfolding create_self_reset
  reset_self-Staffed env ctx o r = Keeps-bind _ _ (Keeps-gets _) λ b.
      Keeps-bind _ _ (Keeps-raise_if _ _) λ _. Keeps-bind _ _ (Keeps-modify _ λ s h. h) λ _.
        Keeps-bind _ _ (insert_reset-Staffed _)
          λ _. Keeps-bind _ _ (audit-Staffed start _) λ _. Keeps-pure _

  pub reset_other-Staffed :
      (env : Env) (ctx : Context) (unknown : String × String) (o : Operator) (id : ℕ)
      (r : ResetRequest)
      → Keeps (Staffed start) (create_reset env ctx unknown o id r)
  unfolding create_reset
  reset_other-Staffed env ctx unknown o id r = Hoare-bind _ _ (fetch_account-Held start id) λ a.
      Hoare-bind _ _ (Keeps-raise_if _ _) λ _.
        Hoare-bind _ _ (verify-Keeps (Held start a) env ctx.now o.account_id _ _) λ t.
          Hoare-bind _ _ (Keeps-modify _ λ s h. h) λ _.
            Hoare-bind _ _
              (update_plain a (take_access r.reset_mode _) (take_access-Same r.reset_mode _ a))
              λ _. Keeps-bind _ _ (Keeps-modify _ λ s h. h) λ _.
                Keeps-bind _ _ (insert_reset-Staffed _)
                  λ _. Keeps-bind _ _ (audit-Staffed start _) λ _. Keeps-pure _

  get_reset-Held :
      (env : Env) (now : ℕ) (token : String)
      → Hoare (Staffed start) (get_reset env now token) (λ row s. Held start row.1 s)
  unfolding get_reset live_account
  get_reset-Held env now token = Hoare-bind _ _ (Keeps-gets {P = Staffed start} _) λ r'.
      Hoare-bind _ _ (take-Staffed start r' _) λ r. Hoare-bind _ _ (Hoare-gets _) λ a'.
        Hoare-bind _ _ (Hoare-found _ a' _) λ a. Hoare-bind _ _ (Keeps-raise_if _ _) λ _.
          Hoare-bind _ _ (Keeps-raise_if _ _)
            λ _. Hoare-pure _ λ s h. Held-found start _ a s (sym h.0.1 ∙ h.1) h.0.0

  pub accept_reset-Staffed :
      (env : Env) (ctx : Context) (salt : String) (p : ResetAcceptRequest)
      → Keeps (Staffed start) (operator_access_reset_accept env ctx salt p)
  unfolding operator_access_reset_accept update_account
  accept_reset-Staffed env ctx salt p =
      Hoare-bind _ _ (get_reset-Held env ctx.now p.reset_token) λ row.
        Hoare-bind _ _ (Keeps-raise_if _ _) λ _. Hoare-bind _ _ (Keeps-raise_if _ _) λ _.
          Hoare-bind _ _
            (Hoare-modify {P = Held start row.1} {Q = λ _ s. Staffed start s} _ λ s h.
              let same = give_access-Same row.0.reset_mode _ _ row.1 in
              Staffed-plain start row.1 _ s same.0 same.1 same.2 h)
            λ _. Keeps-bind _ _ (audit-Staffed start _) λ _. Keeps-pure _
