-- ===== src/Operators/Staffed/Changes.antt =====
-- Requests to change a role keep the tables staffed.
use rustdesk_managed_directo.Common.{
  ℕ, String, ◌≡◌, refl, true, false, Option, none, some, List, ◌==◌, arith, All-intro,
  if◌then◌else◌,
}
use rustdesk_managed_directo.Http.{Outcome, done, raised, Tx, http}
use rustdesk_managed_directo.Http.Keeps.{
  Ends, Hoare, Keeps, Hoare-bind, Hoare-gets, Hoare-raise_if, Hoare-modify, Keeps-pure, Keeps-raise,
  Keeps-if, Keeps-raise_if, Keeps-modify, Keeps-gets, Keeps-bind,
}
use rustdesk_managed_directo.Store.{
  Account, RoleChange, ChangeStatus, Db, is_pending_change, is_completed,
}
use rustdesk_managed_directo.Store.Env.{Env}
use rustdesk_managed_directo.Lifecycle.{Context}
use rustdesk_managed_directo.Operators.Gates.{Operator}
use rustdesk_managed_directo.Operators.Changes.{
  ChangeRequest, verify_owner_reauthentication, expire_changes, insert_role_change, as_conflict,
  verified_at, refuse_role_change, request_change, create_operator_role_change_request,
}
use rustdesk_managed_directo.Operators.Staffed.{Staffed}
use rustdesk_managed_directo.Operators.Staffed.Updates.{Staffed-changes, Staffed-insert_change}
use rustdesk_managed_directo.Operators.Staffed.Lifecycle.{take-Staffed, audit_account-Staffed}

pub pending-unfinished : (s : ChangeStatus) → is_pending_change s ≡ true → is_completed s ≡ false
pending-unfinished ChangeStatus.pending h = refl
pending-unfinished ChangeStatus.completed h = cc
pending-unfinished ChangeStatus.rejected h = refl
pending-unfinished ChangeStatus.cancelled h = refl
pending-unfinished ChangeStatus.expired h = refl

pub Hoare-as_conflict :
    {A : Type 0} {P : Db → Type 0} {Q : A → Db → Type 0} (m : Tx Db A)
    → Hoare P m Q
    → Hoare P (as_conflict m) Q
unfolding as_conflict
Hoare-as_conflict {A} {P} {Q} m k = record { at = λ s h. go (m s) (k.at s h) }
  where
    go :
        (r : Outcome Db A)
        → Ends Q r
        → Ends Q (
            let t : Outcome Db A = elim r [
              | done a u ↦ done a u
              | raised e ↦ raised (if e.status_code == 500 then http 409 e.detail else e)
            ] in
            t)
    go (done a u) h = h
    go (raised e) h = tt

-- The proof of password and code changes nothing.
pub verify-Keeps :
    (P : Db → Type 0) (env : Env) (now owner : ℕ) (password code : Option String)
    → Keeps P (verify_owner_reauthentication env now owner password code)
unfolding verify_owner_reauthentication
verify-Keeps P env now owner none code = Keeps-raise _
verify-Keeps P env now owner (some p) none = Keeps-raise _
verify-Keeps P env now owner (some p) (some c) =
    Keeps-bind _ _ (Keeps-gets _) λ b. Keeps-bind _ _ (Keeps-raise_if _ _) λ _. Keeps-pure _

module _ (start : List Account) where
  pub refuse_role_change-Staffed :
      {A : Type 0} (ctx : Context) (o : Operator) (id : ℕ)
      → Keeps (Staffed start) (refuse_role_change {A = A} ctx o id)
  unfolding refuse_role_change
  refuse_role_change-Staffed ctx o id =
      Keeps-bind _ _ (audit_account-Staffed start ctx o _ id _) λ _. Keeps-pure _

  insert_role_change-Staffed : (c : RoleChange) → Keeps (Staffed start) (insert_role_change c)
  unfolding insert_role_change
  insert_role_change-Staffed c = Keeps-bind _ _ (Keeps-gets _) λ a.
      Keeps-bind _ _ (Keeps-raise_if _ _) λ _. Keeps-bind _ _ (Keeps-raise_if _ _) λ _.
        Keeps-bind _ _ (Keeps-raise_if _ _) λ _. Keeps-bind _ _ (Keeps-raise_if _ _) λ _.
          Keeps-bind _ _ (Keeps-gets _) λ w. Keeps-bind _ _ (Keeps-raise_if _ _) λ _.
            Hoare-bind _ _ (Hoare-gets {P = Staffed start} _) λ clash.
              Hoare-bind _ _ (Hoare-raise_if _ _)
                λ _. Hoare-modify _ λ s h. Staffed-insert_change start c s (cc (h.0.1, h.1)) h.0.0

  request_change-Staffed :
      (env : Env) (ctx : Context) (o : Operator) (a : Account) (r : ChangeRequest)
      → Keeps (Staffed start) (request_change env ctx o a r)
  unfolding request_change verified_at
  request_change-Staffed env ctx o a r = Keeps-bind _ _ (Keeps-raise_if _ _) λ _.
      Keeps-bind _ _ (Keeps-raise_if _ _) λ _. Keeps-bind _ _ (Keeps-raise_if _ _) λ _.
        Keeps-bind _ _ (Keeps-raise_if _ _) λ _.
          Keeps-bind _ _
            (Keeps-if _ _ _
              (Keeps-bind _ _ (verify-Keeps (Staffed start) env ctx.now o.account_id _ _)
                λ t. Keeps-pure _)
              (Keeps-pure _))
            λ v.
              Keeps-bind _ _ (Hoare-as_conflict _ (insert_role_change-Staffed _))
                λ _. Keeps-bind _ _ (audit_account-Staffed start ctx o _ a.id _) λ _. Keeps-pure _

  pub request-Staffed :
      (env : Env) (ctx : Context) (o : Operator) (id : ℕ) (r : ChangeRequest)
      → Keeps (Staffed start) (create_operator_role_change_request env ctx o id r)
  unfolding create_operator_role_change_request expire_changes
  request-Staffed env ctx o id r = Keeps-bind _ _ (Keeps-raise_if _ _) λ _.
      Keeps-bind _ _
        (Keeps-modify _ λ s h.
          Staffed-changes start _ _ s (λ c. refl)
            (All-intro _ (λ c k. pending-unfinished c.status (ground (arith, k))) s.role_changes) h)
        λ _. Keeps-bind _ _ (Keeps-gets _) λ t. Keeps-bind _ _ (take-Staffed start t _) λ a.
          Keeps-if _ _ _ (refuse_role_change-Staffed ctx o a.id)
            (request_change-Staffed env ctx o a r)
