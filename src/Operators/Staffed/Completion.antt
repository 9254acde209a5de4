-- ===== src/Operators/Staffed/Completion.antt =====
-- The completion and the cancellation of a request to change a role keep the tables staffed.
use rustdesk_managed_directo.Common.{
  ℕ, String, ◌≡◌, ◌∙◌, subst, refl, sym, true, false, some, List, ◌==◌, ==_iff, arith, exists_where,
  find_where, find_where_sound, All-mono, inl, inr, Bool-cases,
}
use rustdesk_managed_directo.Common.Distinct.{Distinct-find_where, exists_where-updated}
use rustdesk_managed_directo.Http.Keeps.{
  Hoare, Keeps, Hoare-bind, Hoare-gets, Hoare-raise_if, Hoare-modify, Hoare-pure, Hoare-pre,
  Hoare-if, Hoare-fact, Keeps-pure, Keeps-raise_if, Keeps-modify, Keeps-gets, Keeps-bind,
}
use rustdesk_managed_directo.Store.{
  Account, RoleChange, ChangeStatus, Role, Db, is_owner, is_pending_change,
}
use rustdesk_managed_directo.Store.Env.{Env}
use rustdesk_managed_directo.Lifecycle.{Context}
use rustdesk_managed_directo.Operators.Gates.{Operator}
use rustdesk_managed_directo.Operators.SignIn.{update_account}
use rustdesk_managed_directo.Operators.Changes.{account_row, is_unproven, set_change}
use rustdesk_managed_directo.Operators.Completion.{
  refuse_late, update_role, apply_completed_change, completed_by_owner, complete_change,
  fetch_change, complete_operator_role_change_request, cancel_operator_role_change_request,
}
use rustdesk_managed_directo.Operators.Staffed.{change_id, promotes, Staffed, Held}
use rustdesk_managed_directo.Operators.Staffed.Updates.{Staffed-row, Staffed-changes}
use rustdesk_managed_directo.Operators.Staffed.Lifecycle.{
  Hoare-found, Held-found, audit_account-Staffed, fetch_account-Held,
}
use rustdesk_managed_directo.Operators.Staffed.Changes.{
  pending-unfinished, Hoare-as_conflict, refuse_role_change-Staffed,
}

-- A request's row and its target's.
abbrev Joined : List Account → RoleChange × Account → Db → Type 0
Joined start row s =
    Held start row.1 s
    × (find_where (λ d. d.id == row.0.id) s.role_changes ≡ some row.0)
    × (row.1.id ≡ row.0.target_account_id)

-- A promotion of the account is on record.
abbrev Backed : List Account → Role → Account → Db → Type 0
Backed start role a s =
    Held start a s × (is_owner role ≡ true → exists_where (promotes a.id) s.role_changes ≡ true)

-- A row that its id finds.
own :
    (id : ℕ) (c : RoleChange) (changes : List RoleChange)
    → find_where (λ d. d.id == id) changes ≡ some c
    → find_where (λ d. d.id == c.id) changes ≡ some c
own id c changes h =
    let e = (==_iff c.id id).0 (find_where_sound _ changes h) in
    subst (λ k. find_where (λ d. d.id == k) changes ≡ some c) (sym e) h

-- What a completed request shows of a promotion.
completed-promotes :
    (completer : ℕ) (c : RoleChange)
    → is_unproven c ≡ false
    → (c.target_account_id == completer) ≡ false
    → is_owner c.requested_role ≡ true
    → promotes c.target_account_id (completed_by_owner completer c) ≡ true
unfolding is_unproven
completed-promotes completer c proven other role = ground (arith, proven, other, role)

module _ (start : List Account) where
  fetch_change-Joined : (id : ℕ) → Hoare (Staffed start) (fetch_change id) (Joined start)
  unfolding fetch_change account_row
  fetch_change-Joined id = Hoare-bind _ _ (Hoare-gets {P = Staffed start} _) λ c'.
      Hoare-bind _ _ (Hoare-found _ c' _) λ c. Hoare-bind _ _ (Hoare-gets _) λ a'.
        Hoare-bind _ _ (Hoare-found _ a' _) λ a. Hoare-pure _ λ s h. (
          Held-found start _ a s (sym h.0.1 ∙ h.1) h.0.0.0.0,
          own id c s.role_changes (sym h.0.0.0.1 ∙ h.0.0.1),
          (==_iff a.id c.target_account_id).0 (find_where_sound _ s.accounts (sym h.0.1 ∙ h.1)),
        )

  -- The row of a request that is still pending.
  set_change-Staffed :
      (f : RoleChange → RoleChange) (c : RoleChange) (s : Db)
      → ((d : RoleChange) → (f d).id ≡ d.id)
      → is_pending_change c.status ≡ true
      → find_where (λ d. d.id == c.id) s.role_changes ≡ some c
      → Staffed start s
      → Staffed start (record s { role_changes = set_change c.id f s.role_changes })
  set_change-Staffed f c s keeps waits at h =
      Staffed-changes start _ f s keeps
        (All-mono (λ d only k. rw (only k) (pending-unfinished c.status waits)) s.role_changes
          (Distinct-find_where change_id _ s.role_changes h.1 at))
        h

  refuse_late-Staffed :
      {A : Type 0} (row : RoleChange × Account)
      → is_pending_change row.0.status ≡ true
      → Hoare (Joined start row) (refuse_late {A = A} row.0) (λ _ s. Staffed start s)
  unfolding refuse_late
  refuse_late-Staffed row waits =
      Hoare-bind _ _
        (Hoare-modify {P = Joined start row} {Q = λ _ s. Staffed start s} _ λ s h.
          set_change-Staffed (λ d. record d { status = ChangeStatus.expired }) row.0 s (λ d. refl)
            waits h.1 h.0.0)
        λ _. Keeps-pure _

  update_role-Staffed :
      (env : Env) (a : Account) (role : Role)
      → Hoare (Backed start role a) (update_role env a role) (λ _ s. Staffed start s)
  unfolding update_role update_account
  update_role-Staffed env a role = Hoare-bind _ _ (Hoare-gets {P = Backed start role a} _) λ others.
      Hoare-bind _ _ (Hoare-raise_if _ _) λ _. Hoare-bind _ _ (Keeps-raise_if _ _) λ _.
        Hoare-modify _ λ s h.
          Staffed-row start a (record a { role = role }) s refl
            (λ e. elim (Bool-cases (is_owner role)) [
              | inl k ↦ let on = h.0.0.1 k in ground (arith, k, on)
              | inr k ↦ ground (arith, k)
            ])
            (ground (arith, h.0.1, h.1)) h.0.0.0

  apply-Staffed :
      (env : Env) (ctx : Context) (completer : ℕ) (c : RoleChange) (a : Account)
      → Hoare
          (Backed start c.requested_role a)
          (apply_completed_change env ctx completer c a)
          (λ _ s. Staffed start s)
  unfolding apply_completed_change
  apply-Staffed env ctx completer c a =
      Hoare-bind _ _ (Keeps-gets {P = Backed start c.requested_role a} _) λ row.
        Hoare-bind _ _ (Keeps-raise_if _ _) λ _. Hoare-bind _ _ (Keeps-raise_if _ _) λ _.
          Hoare-bind _ _ (Keeps-raise_if _ _)
            λ _. Hoare-bind _ _ (Keeps-raise_if _ _) λ _. update_role-Staffed env a c.requested_role

  -- The request becomes completed, and then speaks for its target.
  set_completed-Backed :
      (row : RoleChange × Account) (completer : ℕ) (s : Db)
      → is_pending_change row.0.status ≡ true
      → is_unproven row.0 ≡ false
      → (row.0.target_account_id == completer) ≡ false
      → Joined start row s
      → Backed start row.0.requested_role row.1 (record s {
        role_changes = set_change row.0.id (completed_by_owner completer) s.role_changes;
      })
  set_completed-Backed row completer s waits proven other h = (
    (set_change-Staffed (completed_by_owner completer) row.0 s (λ d. refl) waits h.1 h.0.0, h.0.1),
    λ promoted. rw h.2 (
        exists_where-updated (promotes row.0.target_account_id) _ _ s.role_changes h.1
          (completed-promotes completer row.0 proven other promoted)),
  )

  complete_change-Staffed :
      (env : Env) (ctx : Context) (o : Operator) (row : RoleChange × Account) (reason : String)
      → is_pending_change row.0.status ≡ true
      → Hoare
          (Joined start row)
          (complete_change env ctx o row.0 row.1 reason)
          (λ _ s. Staffed start s)
  unfolding complete_change
  complete_change-Staffed env ctx o row reason waits =
      Hoare-bind _ _ (Hoare-raise_if {P = Joined start row} _ _) λ _. Hoare-fact _ λ other.
        Hoare-bind _ _ (Keeps-raise_if _ _) λ _. Hoare-bind _ _ (Keeps-raise_if _ _) λ _.
          Hoare-bind _ _ (Hoare-raise_if _ _) λ _. Hoare-fact _ λ proven.
            Hoare-bind _ _
              (Hoare-modify {Q = λ _ s. Backed start row.0.requested_role row.1 s} _ λ s h.
                set_completed-Backed row o.account_id s waits (ground (arith, proven)) other h)
              λ _. Hoare-bind _ _ (apply-Staffed env ctx o.account_id row.0 row.1) λ _.
                Keeps-bind _ _ (audit_account-Staffed start ctx o _ _ _) λ _.
                  Keeps-bind _ _ (Keeps-gets _) λ n. Keeps-bind _ _ (Keeps-modify _ λ s h. h) λ _.
                    Keeps-bind _ _ (audit_account-Staffed start ctx o _ _ _)
                      λ _. Hoare-bind _ _ (fetch_account-Held start _) λ a. Hoare-pure _ λ s h. h.0

  pub complete-Staffed :
      (env : Env) (ctx : Context) (o : Operator) (id : ℕ) (reason : String)
      → Keeps (Staffed start) (complete_operator_role_change_request env ctx o id reason)
  unfolding complete_operator_role_change_request
  complete-Staffed env ctx o id reason = Hoare-as_conflict _ (
      Hoare-bind _ _ (fetch_change-Joined id) λ row. Hoare-bind _ _ (Hoare-raise_if _ _) λ _.
        Hoare-fact _ λ waits. Hoare-if _ _ _ (refuse_late-Staffed row (ground (arith, waits))) (
          Hoare-if _ _ _
            (Hoare-pre _ (λ s h. h.0.0) (refuse_role_change-Staffed start ctx o row.1.id))
            (complete_change-Staffed env ctx o row reason (ground (arith, waits)))))

  pub cancel-Staffed :
      (env : Env) (ctx : Context) (o : Operator) (id : ℕ) (reason : String)
      → Keeps (Staffed start) (cancel_operator_role_change_request env ctx o id reason)
  unfolding cancel_operator_role_change_request
  cancel-Staffed env ctx o id reason = Hoare-bind _ _ (fetch_change-Joined id) λ row.
      Hoare-bind _ _ (Hoare-raise_if _ _) λ _. Hoare-fact _ λ waits.
        Hoare-if _ _ _ (refuse_late-Staffed row (ground (arith, waits))) (
          Hoare-bind _ _
            (Hoare-modify {P = Joined start row} {Q = λ _ s. Staffed start s} _ λ s h.
              set_change-Staffed (λ d. record d { status = ChangeStatus.cancelled }) row.0 s
                (λ d. refl) (ground (arith, waits)) h.1 h.0.0)
            λ _. Hoare-bind _ _ (audit_account-Staffed start ctx o _ _ _) λ _. Keeps-pure _)
