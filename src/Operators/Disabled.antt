-- ===== src/Operators/Disabled.antt =====
-- What `disable_operator_account` ends: every session of the account, for any access token.
use rustdesk_managed_directo.Common.{
  ℕ, String, Bool, ◌⊎◌, inl, inr, true, false, ◌≡◌, ◌≢◌, refl, Bool-cases, ◌&&◌, ◌||◌, not, some,
  List, ◌==◌, str_eq, arith, All, All-intro, All-mono, All-update_where, All-find_where,
  find_where_sound, if◌then◌else◌, exists_where,
}
use rustdesk_managed_directo.Http.{
  http, internal_error, Outcome, done, raised, Reply, accepted, refused, raise_if, modify, pure,
  ◌>>=◌, ◌>>◌,
}
use rustdesk_managed_directo.Http.Keeps.{Ends}
use rustdesk_managed_directo.Store.{Account, Db, is_owner}
use rustdesk_managed_directo.Store.Env.{Env, AccessClaims}
use rustdesk_managed_directo.Store.Queries.{write_audit}
use rustdesk_managed_directo.Lifecycle.{Context}
use rustdesk_managed_directo.Operators.Gates.{Operator}
use rustdesk_managed_directo.Operators.Sessions.{operator_row, active_account, require_operator}
use rustdesk_managed_directo.Operators.SignedIn.{joined-tells, require_operator-row}
use rustdesk_managed_directo.Operators.SignIn.{update_account}
use rustdesk_managed_directo.Operators.Accounts.{
  is_protected_brad_account, live_account, fetch_account, is_other_owner, deactivate,
  revoke_account_sessions, audit_account, refuse_protected, disable_live, disable_operator_account,
}

-- An active account is not this one.
abbrev pub Shut : ℕ → Account → Type 0
Shut id a = (a.id == id && a.is_active) ≡ false

operator_row-Shut :
    (env : Env) (now : ℕ) (token : String) (db : Db) (claims : AccessClaims) (o : Operator) (id : ℕ)
    → All (Shut id) db.accounts
    → operator_row env now claims token db ≡ some o
    → o.account_id ≢ id
unfolding operator_row active_account
operator_row-Shut env now token db claims o id shut h e =
    let j = joined-tells db.accounts _ o h in
    let p = find_where_sound _ db.accounts j.3 in
    let q = All-find_where (Shut id) _ db.accounts shut j.3 in
    let k : j.0.account_id ≡ id = cc (j.4, e) in ground (arith, p, q, k)

require_operator-Shut :
    (env : Env) (now : ℕ) (token : String) (db : Db) (id : ℕ)
    → All (Shut id) db.accounts
    → Ends (λ o _. o.account_id ≢ id) (require_operator env now (some token) db)
require_operator-Shut env now token db id shut =
    require_operator-row env now token db (λ o. o.account_id ≢ id)
      (λ claims o h. operator_row-Shut env now token db claims o id shut h)

update_account-Shut :
    (a : Account) (id : ℕ) (accounts : List Account)
    → a.id ≡ id
    → All (Shut id) (update_account a (λ b. record b { is_active = false }) accounts)
unfolding update_account
update_account-Shut a id accounts same =
    All-update_where {P = λ b. Unit {0}} _ _ (λ b h p. ground arith) (λ b h p. ground (arith, p))
      accounts (All-intro (λ b. Unit {0}) (λ b. tt) accounts)

abbrev okay : Reply (Unit {0})
okay = accepted tt

-- What holds after an answer that is not a refusal.
abbrev pub OnAccepted : {A : Type 0} → Reply A → Type 0 → Type 0
OnAccepted (accepted a) P = P
OnAccepted (refused e) P = Unit

disable_live-Shut :
    (env : Env) (ctx : Context) (o : Operator) (a : Account) (id : ℕ) (reason : String) (db : Db)
    → a.id ≡ id
    → Ends
        (λ reply t. OnAccepted reply (All (Shut id) t.accounts))
        (disable_live env ctx o a reason db)
unfolding disable_live deactivate audit_account write_audit ◌>>=◌
disable_live-Shut env ctx o a id reason db same =
    go (is_owner a.role && not (exists_where (is_other_owner a) db.accounts))
      (a.id == 0 || str_eq (env.lower a.username) "brad")
  where
    go :
        (b : Bool) (c : Bool)
        → Ends
            (λ reply t. OnAccepted reply (All (Shut id) t.accounts))
            ((raise_if b (internal_error "At least one active Owner must remain")
                >> (raise_if c (
                      internal_error
                        "Brad account role, status and lifecycle are permanently protected")
                    >> modify (λ db. record db {
                      accounts = update_account a (λ b. record b { is_active = false }) db.accounts;
                    }))
                >>= λ _.
                    modify (λ db. record db {
                      sessions = revoke_account_sessions ctx.now a.id db.sessions;
                    })
                    >> (audit_account ctx o "operator.disabled" a.id (env.strip reason)
                        >> pure okay))
              db)
    go true c = tt
    go false true = tt
    go false false = update_account-Shut a id db.accounts same

disable-Shut :
    (env : Env) (ctx : Context) (o : Operator) (id : ℕ) (reason : String) (db : Db) (a : Account)
    → live_account id db.accounts ≡ some a
    → All (λ b. (b.id == id) ≡ true → b ≡ a) db.accounts
    → Ends
        (λ reply t. OnAccepted reply (All (Shut id) t.accounts))
        (disable_operator_account env ctx o id reason db)
unfolding disable_operator_account fetch_account refuse_protected audit_account write_audit
    live_account ◌>>=◌
disable-Shut env ctx o id reason db a live key =
    rw live (go (is_protected_brad_account env a) (is_owner a.role) a.is_active refl)
  where
    same : a.id ≡ id
    same = let p = find_where_sound _ db.accounts live in ground (arith, p)

    idle :
        (b : Account)
        → ((b.id == id) ≡ true → b ≡ a)
        → a.is_active ≡ false
        → ((b.id == id) ≡ true) ⊎ ((b.id == id) ≡ false)
        → Shut id b
    idle b k off (inl e) = let q = k e in rw q (ground (arith, off))
    idle b k off (inr e) = ground (arith, e)

    go :
        (b c d : Bool)
        → a.is_active ≡ d
        → Ends
            (λ reply t. OnAccepted reply (All (Shut id) t.accounts))
            ((if b
                then refuse_protected ctx o a.id "disable"
                else (raise_if c (http 409 "Owner accounts require the protected Owner workflow")
                    >> (if d then disable_live env ctx o a reason else pure okay)))
              db)
    go true c d on = tt
    go false true d on = tt
    go false false true on = disable_live-Shut env ctx o a id reason db same
    go false false false off =
        All-mono (λ b k. idle b k off (Bool-cases (b.id == id))) db.accounts key

-- On the tables that disabling an account leaves, if it answers without a refusal, no access token
-- lets a request in for that account, at any time, where no other row has the account's id.
pub disable-SignedOut :
    (env : Env) (ctx : Context) (o : Operator) (id : ℕ) (reason : String) (db : Db) (a : Account)
    → live_account id db.accounts ≡ some a
    → All (λ b. (b.id == id) ≡ true → b ≡ a) db.accounts
    → (later : ℕ) (token : String)
    → Ends
        (λ reply t.
          OnAccepted reply
            (Ends (λ p _. p.account_id ≢ id) (require_operator env later (some token) t)))
        (disable_operator_account env ctx o id reason db)
disable-SignedOut env ctx o id reason db a live key later token =
    go (disable_operator_account env ctx o id reason db)
      (disable-Shut env ctx o id reason db a live key)
  where
    go :
        (r : Outcome Db (Reply (Unit {0})))
        → Ends (λ reply t. OnAccepted reply (All (Shut id) t.accounts)) r
        → Ends
            (λ reply t.
              OnAccepted reply
                (Ends (λ p _. p.account_id ≢ id) (require_operator env later (some token) t)))
            r
    go (done (accepted x) t) h = require_operator-Shut env later token t id h
    go (done (refused e) t) h = tt
    go (raised e) h = tt
