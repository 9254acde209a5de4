-- ===== src/Operators/Staffed/Run.antt =====
-- Whatever operators do, in any order, an active Owner is left, and nobody becomes an Owner but by a
-- proven request.
use rustdesk_managed_directo.Common.{
  ℕ, ◌≡◌, ◌⊎◌, inl, inr, refl, true, List, [], ◌∷◌, arith, exists_where, All, All-mono, Bool-cases,
}
use rustdesk_managed_directo.Common.Distinct.{Distinct}
use rustdesk_managed_directo.Http.{Tx, Reply, commit, ◌>>◌}
use rustdesk_managed_directo.Http.Keeps.{Keeps, Keeps-bind, Keeps-raise_if, commit-keeps}
use rustdesk_managed_directo.Store.{Account, RoleChange, owner, Db, is_owner}
use rustdesk_managed_directo.Store.Env.{Env}
use rustdesk_managed_directo.Lifecycle.{Context}
use rustdesk_managed_directo.Operators.Gates.{Operator, enforce_owner}
use rustdesk_managed_directo.Operators.Steps.{
  Task, sign_in, sign_out, disable, enable, unlock, end_sessions, delete, invite, revoke_invitation,
  set_up, accept_invitation, request_role, complete_role, cancel_role, reset_other, reset_self,
  accept_reset, perform, perform_all,
}
use rustdesk_managed_directo.Operators.Staffed.{
  serves_as_owner, promotes, was_owner, account_id, change_id, Entitled, Staffed,
}
use rustdesk_managed_directo.Operators.Staffed.Lifecycle.{
  disable-Staffed, enable-Staffed, unlock-Staffed, end_sessions-Staffed,
}
use rustdesk_managed_directo.Operators.Staffed.Invitations.{
  invite-Staffed, revoke_invitation-Staffed, setup-Staffed, accept-Staffed,
}
use rustdesk_managed_directo.Operators.Staffed.Changes.{request-Staffed}
use rustdesk_managed_directo.Operators.Staffed.Completion.{complete-Staffed, cancel-Staffed}
use rustdesk_managed_directo.Operators.Staffed.Access.{
  sign_in-Staffed, sign_out-Staffed, delete-Staffed, reset_self-Staffed, reset_other-Staffed,
  accept_reset-Staffed,
}

module _ (start : List Account) (env : Env) where
  gated :
      {A : Type 0} (o : Operator) (m : Tx Db (Reply A))
      → Keeps (Staffed start) m
      → (db : Db) → Staffed start db
      → Staffed start (commit (enforce_owner o >> m) db).1
  unfolding enforce_owner
  gated o m k = commit-keeps _ (Keeps-bind _ _ (Keeps-raise_if _ _) λ _. k)

  perform-Staffed :
      (ctx : Context) (task : Task) (db : Db)
      → Staffed start db
      → Staffed start (perform env ctx task db)
  unfolding perform
  perform-Staffed ctx (sign_in scope r) = commit-keeps _ (sign_in-Staffed start env ctx scope r)
  perform-Staffed ctx (sign_out o) = commit-keeps _ (sign_out-Staffed start ctx o)
  perform-Staffed ctx (disable o id reason) = gated o _ (disable-Staffed start env ctx o id reason)
  perform-Staffed ctx (enable o id reason) = gated o _ (enable-Staffed start env ctx o id reason)
  perform-Staffed ctx (unlock o id reason) = gated o _ (unlock-Staffed start env ctx o id reason)
  perform-Staffed ctx (end_sessions o id reason) =
      gated o _ (end_sessions-Staffed start env ctx o id reason)
  perform-Staffed ctx (delete o id reason) = gated o _ (delete-Staffed start env ctx o id reason)
  perform-Staffed ctx (invite o r) = gated o _ (invite-Staffed start env ctx o r)
  perform-Staffed ctx (revoke_invitation o id reason) =
      gated o _ (revoke_invitation-Staffed start env ctx o id reason)
  perform-Staffed ctx (set_up token) = commit-keeps _ (setup-Staffed start env ctx.now token)
  perform-Staffed ctx (accept_invitation salt r) =
      commit-keeps _ (accept-Staffed start env ctx salt r)
  perform-Staffed ctx (request_role o id r) = gated o _ (request-Staffed start env ctx o id r)
  perform-Staffed ctx (complete_role o id reason) =
      gated o _ (complete-Staffed start env ctx o id reason)
  perform-Staffed ctx (cancel_role o id reason) =
      gated o _ (cancel-Staffed start env ctx o id reason)
  perform-Staffed ctx (reset_other unknown o id r) =
      gated o _ (reset_other-Staffed start env ctx unknown o id r)
  perform-Staffed ctx (reset_self o r) = commit-keeps _ (reset_self-Staffed start env ctx o r)
  perform-Staffed ctx (accept_reset salt p) =
      commit-keeps _ (accept_reset-Staffed start env ctx salt p)

  perform_all-Staffed :
      (tasks : List (Context × Task)) (db : Db)
      → Staffed start db
      → Staffed start (perform_all env tasks db)
  unfolding perform_all
  perform_all-Staffed [] db h = h
  perform_all-Staffed ((ctx, task) ∷ rest) db h =
      perform_all-Staffed rest (perform env ctx task db) (perform-Staffed ctx task db h)

-- Every Owner at the start was one.
Entitled-start :
    (all accounts : List Account) (changes : List RoleChange)
    → ((id : ℕ) → was_owner accounts id ≡ true → was_owner all id ≡ true)
    → Entitled all accounts changes
unfolding was_owner exists_where
Entitled-start all [] changes sub = tt
Entitled-start all (a ∷ accounts) changes sub = (
  elim (Bool-cases (is_owner a.role)) [
    | inl k ↦ let w = sub a.id (ground (arith, k)) in ground (arith, w)
    | inr k ↦ ground (arith, k)
  ],
  Entitled-start all accounts changes (λ id k. sub id (ground (arith, k))),
)

-- Accounts and requests have ids of their own, and an active Owner is there.
abbrev pub Ordered : Db → Type 0
Ordered db =
    Distinct account_id db.accounts
    × Distinct change_id db.role_changes
    × (exists_where serves_as_owner db.accounts ≡ true)

Ordered-Staffed : (db : Db) → Ordered db → Staffed db.accounts db
Ordered-Staffed db h =
    (h.0, h.1, h.2, Entitled-start db.accounts db.accounts db.role_changes (λ id k. k))

-- Where the ids of accounts and of role changes are unique and an active Owner is there, an active Owner
-- is there after any sequence of requests: sign-ins and sign-outs, invitations and their acceptance,
-- disabling, enabling, unlocking, deleting, ending sessions, role changes and access resets.
pub perform_all-serves_as_owner :
    (env : Env) (tasks : List (Context × Task)) (db : Db)
    → Ordered db
    → exists_where serves_as_owner (perform_all env tasks db).accounts ≡ true
perform_all-serves_as_owner env tasks db h =
    (perform_all-Staffed db.accounts env tasks db (Ordered-Staffed db h)).2

-- From such tables, after any such sequence, whoever is an Owner was one at the start, or is the target
-- of a completed request for that role, with the Owner's password and code verified, that somebody else
-- completed.
pub perform_all-promotes :
    (env : Env) (tasks : List (Context × Task)) (db : Db)
    → Ordered db
    → All
        (λ a.
          a.role ≡ owner
          → (was_owner db.accounts a.id ≡ true)
            ⊎ (exists_where (promotes a.id) (perform_all env tasks db).role_changes ≡ true))
        (perform_all env tasks db).accounts
perform_all-promotes env tasks db h =
    let end = perform_all env tasks db in
    All-mono
      (λ a e role. elim (Bool-cases (was_owner db.accounts a.id)) [
        | inl k ↦ inl k
        | inr k ↦ inr (let r : is_owner a.role ≡ true = rw role refl in ground (arith, e, k, r))
      ])
      end.accounts (perform_all-Staffed db.accounts env tasks db (Ordered-Staffed db h)).3
