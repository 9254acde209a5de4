-- ===== src/Operators/Proven.antt =====
-- Who may ask for a change that makes or unmakes an Owner.
use rustdesk_managed_directo.Common.{
  ℕ, String, ◌≡◌, ◌∙◌, subst, sym, ap, refl, Bool, true, false, not, Option, none, some, List,
  arith, if◌then◌else◌,
}
use rustdesk_managed_directo.Http.{Outcome, done, raised, Tx, Reply, accepted, refused, pure, ◌>>=◌}
use rustdesk_managed_directo.Http.Keeps.{
  Ends, Hoare, Hoare-bind, Hoare-gets, Hoare-raise_if, Hoare-pure, Hoare-raise, Hoare-pre, Hoare-if,
  Keeps-raise_if, Keeps-modify,
}
use rustdesk_managed_directo.Store.{Account, Db}
use rustdesk_managed_directo.Store.Env.{Env}
use rustdesk_managed_directo.Store.Queries.{write_audit}
use rustdesk_managed_directo.Lifecycle.{Context}
use rustdesk_managed_directo.Operators.Gates.{Operator}
use rustdesk_managed_directo.Operators.Accounts.{is_protected_brad_account, audit_account}
use rustdesk_managed_directo.Operators.Changes.{
  ChangeRequest, account_row, reauthenticates, verify_owner_reauthentication,
  sensitive_owner_change, verified_at, request_change, refuse_role_change,
  create_operator_role_change_request,
}
use rustdesk_managed_directo.Operators.Disabled.{OnAccepted}
use rustdesk_managed_directo.Operators.Staffed.Lifecycle.{Hoare-found}

-- The request carries an Owner's password and code, which fit the Owner's row in `accounts`.
abbrev pub Proves : Env → ℕ → Operator → List Account → ChangeRequest → Type 0
Proves env now o accounts r =
    (password : String) × (code : String) × (r.owner_password ≡ some password)
    × (r.owner_totp_code ≡ some code)
    × (reauthenticates env now password code (account_row o.account_id accounts) ≡ true)

-- The transaction has left the accounts alone.
abbrev Unmoved : List Account → Db → Type 0
Unmoved accounts s = s.accounts ≡ accounts

sharpen :
    {A : Type 0} (F G : Type 0) (t : Outcome Db (Reply A))
    → F
    → Ends (λ reply _. OnAccepted reply (F → G)) t
    → Ends (λ reply _. OnAccepted reply G) t
sharpen F G (done (accepted a) t) f h = h f
sharpen F G (done (refused e) t) f h = tt
sharpen F G (raised e) f h = tt

module _ (env : Env) (ctx : Context) (o : Operator) (r : ChangeRequest)
    (accounts : List Account) where
  proven :
      (b : Bool) (s : Db) (password code : String)
      → (Unmoved accounts s
          × (b ≡ reauthenticates env ctx.now password code (account_row o.account_id s.accounts)))
        × (not b ≡ false)
      → reauthenticates env ctx.now password code (account_row o.account_id accounts) ≡ true
  proven b s password code h =
      subst (λ l. reauthenticates env ctx.now password code (account_row o.account_id l) ≡ true)
        h.0.0 (sym h.0.1 ∙ ground (arith, h.1))

  verify-Proves :
      (password code : Option String)
      → r.owner_password ≡ password
      → r.owner_totp_code ≡ code
      → Hoare
          (Unmoved accounts)
          (verify_owner_reauthentication env ctx.now o.account_id password code)
          (λ _ _. Proves env ctx.now o accounts r)
  unfolding verify_owner_reauthentication
  verify-Proves none code p c = Hoare-raise _
  verify-Proves (some password) none p c = Hoare-raise _
  verify-Proves (some password) (some code) p c =
      Hoare-bind _ _ (Hoare-gets {P = Unmoved accounts} _) λ b.
        Hoare-bind _ _ (Hoare-raise_if _ _)
          λ _. Hoare-pure _ λ s h. (password, code, p, c, proven b s password code h)

  -- What an accepted answer rests on stays so.
  settled :
      {A : Type 0} (F : Type 0) (m : Tx Db (Reply A))
      → Hoare (λ _. F) m (λ reply _. OnAccepted reply F)
  settled F m = record { at = λ s h. go (m s) h }
    where
      go : {A : Type 0} (t : Outcome Db (Reply A)) → F → Ends (λ reply _. OnAccepted reply F) t
      go (done (accepted a) t) h = h
      go (done (refused e) t) h = tt
      go (raised e) h = tt

  -- An answer that never accepts.
  verified-Proves :
      (a : Account)
      → Hoare (Unmoved accounts) (verified_at env ctx o a r) (λ _ _.
        sensitive_owner_change a r.requested_role ≡ true → Proves env ctx.now o accounts r)
  unfolding verified_at
  verified-Proves a = go (sensitive_owner_change a r.requested_role)
    where
      go :
          (b : Bool)
          → Hoare
              (Unmoved accounts)
              (if b
                then (verify_owner_reauthentication env ctx.now o.account_id r.owner_password
                      r.owner_totp_code
                    >>= λ at. pure (some at))
                else pure none)
              (λ _ _. b ≡ true → Proves env ctx.now o accounts r)
      go true =
          Hoare-bind _ _ (verify-Proves r.owner_password r.owner_totp_code refl refl)
            λ at. Hoare-pure _ λ s h k. h
      go false = Hoare-pure _ λ s h. cc

  request_change-Proves :
      (a : Account)
      → Hoare (Unmoved accounts) (request_change env ctx o a r) (λ reply _.
        OnAccepted reply
          (sensitive_owner_change a r.requested_role ≡ true → Proves env ctx.now o accounts r))
  unfolding request_change
  request_change-Proves a = Hoare-bind _ _ (Keeps-raise_if _ _) λ _.
      Hoare-bind _ _ (Keeps-raise_if _ _) λ _. Hoare-bind _ _ (Keeps-raise_if _ _) λ _.
        Hoare-bind _ _ (Keeps-raise_if _ _) λ _. Hoare-bind _ _ (verified-Proves a) λ v. settled _ _

  refuse-Proves :
      (F : Type 0) (id : ℕ)
      → Hoare
          (Unmoved accounts)
          (refuse_role_change {A = ℕ} ctx o id)
          (λ reply _. OnAccepted reply F)
  unfolding refuse_role_change audit_account write_audit ◌>>=◌
  refuse-Proves F id = record { at = λ s h. tt }

  create-Hoare :
      (id : ℕ) (a : Account)
      → account_row id accounts ≡ some a
      → sensitive_owner_change a r.requested_role ≡ true
      → Hoare
          (Unmoved accounts)
          (create_operator_role_change_request env ctx o id r)
          (λ reply _. OnAccepted reply (Proves env ctx.now o accounts r))
  unfolding create_operator_role_change_request
  create-Hoare id a row sensitive = Hoare-bind _ _ (Keeps-raise_if _ _) λ _.
      Hoare-bind _ _ (Keeps-modify {P = Unmoved accounts} _ λ s h. h) λ _.
        Hoare-bind _ _ (Hoare-gets _) λ t. Hoare-bind _ _ (Hoare-found _ t _) λ b.
          Hoare-if (is_protected_brad_account env b) _ _
            (Hoare-pre _ (λ s h. h.0.0) (refuse-Proves _ b.id))
            (record {
              at = λ s h.
                  let same : b ≡ a = target b s h in
                  sharpen _ _ _ (rw same sensitive) ((request_change-Proves b).at s h.0.0);
            })
    where
      target :
          (b : Account) (s : Db) {t : Option Account}
          → (Unmoved accounts s × (t ≡ account_row id s.accounts)) × (t ≡ some b)
          → b ≡ a
      target b s h = let e = ap (account_row id) h.0.0 in cc (h.0.1, h.1, e, row)

-- A request that would make or unmake an Owner is accepted only with a password and a code that fit the
-- row of the operator who asks, an active Owner with a confirmed authenticator.
pub create_operator_role_change_request-Proves :
    (env : Env) (ctx : Context) (o : Operator) (id : ℕ) (r : ChangeRequest) (db : Db) (a : Account)
    → account_row id db.accounts ≡ some a
    → sensitive_owner_change a r.requested_role ≡ true
    → Ends
        (λ reply _. OnAccepted reply (Proves env ctx.now o db.accounts r))
        (create_operator_role_change_request env ctx o id r db)
create_operator_role_change_request-Proves env ctx o id r db a row sensitive =
    (create-Hoare env ctx o r db.accounts id a row sensitive).at db refl
