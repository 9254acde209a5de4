-- ===== src/Operators/Attempts.antt =====
-- What `perform_login` does to an account, against the automaton of Operators/Lockout.
use rustdesk_managed_directo.Common.{
  ℕ, String, ◌≡◌, refl, true, false, Option, none, some, List, [], ◌∷◌, ◌==◌, ◌+◌, ◌<◌, arith, ltb,
  inl, inr, Bool-cases, after_now, update_where, find_where,
}
use rustdesk_managed_directo.Http.{Reply, accepted, refused, http, ◌>>=◌}
use rustdesk_managed_directo.Http.Keeps.{Returns}
use rustdesk_managed_directo.Store.{Account, Scope, Db}
use rustdesk_managed_directo.Store.Env.{Env}
use rustdesk_managed_directo.Store.Queries.{write_audit}
use rustdesk_managed_directo.Lifecycle.{Context}
use rustdesk_managed_directo.Operators.SignIn.{
  LoginRequest, Tokens, find_account, is_unavailable, credentials_valid, count_failure,
  clear_failures, session_seconds, update_account, login_failed, insert_session, open_session,
  fail_login, login_as, perform_login,
}
use rustdesk_managed_directo.Operators.Lockout.{
  Guard, Answer, ignored, wrong, right, attempt, guard_of,
}

-- The guard of the account with an id.
unfoldable pub guard_at : List Account → ℕ → Option Guard
guard_at accounts id = elim (find_where (λ a. a.id == id) accounts) [
  | none ↦ none
  | some a ↦ some (guard_of a)
]

-- What a caller sees: tokens for the right credentials, and one and the same refusal otherwise.
abbrev pub Seen : Answer → Reply Tokens → Type 0
Seen right reply = (t : Tokens) × (reply ≡ accepted t)
Seen _ reply = reply ≡ refused (http 401 "Invalid username, password, or authenticator code")

abbrev pub Follows : ℕ → Answer × Guard → Reply Tokens → Db → Type 0
Follows id (answer, guard) reply t = Seen answer reply × (guard_at t.accounts id ≡ some guard)

find_account-update :
    (env : Env) (username : String) (accounts : List Account) (a : Account) (f : Account → Account)
    → (f a).id ≡ a.id
    → find_account env username accounts ≡ some a
    → find_where (λ b. b.id == a.id) (update_account a f accounts) ≡ some (f a)
unfolding find_account update_account find_where update_where
find_account-update env username [] a f keeps found = cc
find_account-update env username (b ∷ accounts) a f keeps found =
    ground (arith, keeps, find_account-update env username accounts a f keeps)

module _ (env : Env) (ctx : Context) (scope : Scope) (r : LoginRequest) (a : Account) where
  failed-Seen :
      (reason : String) (db : Db) (g : Guard)
      → guard_at db.accounts a.id ≡ some g
      → Returns
          (λ reply t. Seen ignored reply × (guard_at t.accounts a.id ≡ some g))
          (login_failed ctx (some a.id) reason db)
  unfolding login_failed write_audit ◌>>=◌
  failed-Seen reason db g h = (refl, h)

  fail-Follows :
      (username : String) (db : Db)
      → find_account env username db.accounts ≡ some a
      → Returns
          (λ reply t.
            Seen wrong reply
            × (guard_at t.accounts a.id ≡ some (guard_of (count_failure ctx.now a))))
          (fail_login env ctx a r db)
  unfolding fail_login ◌>>=◌ count_failure guard_at
  fail-Follows username db found = failed-Seen _ _ _ (
      rw
        (
          guard_at,
          find_account-update env username db.accounts a (count_failure ctx.now) refl found,
        )
        refl)

  opened-Follows :
      (username : String) (db : Db)
      → find_account env username db.accounts ≡ some a
      → 0 < session_seconds env scope db.settings
      → Returns
          (λ reply t.
            Seen right reply
            × (guard_at t.accounts a.id ≡ some (guard_of (clear_failures ctx.now a))))
          (open_session env ctx scope a db)
  unfolding open_session insert_session write_audit ◌>>=◌ clear_failures guard_at
  opened-Follows username db found lasting =
      let fits : ltb ctx.now (ctx.now + session_seconds env scope db.settings) ≡ true =
        ground arith in
      rw fits (
        (_, refl),
        rw
            (
              guard_at,
              find_account-update env username db.accounts a (clear_failures ctx.now) refl found,
            )
            refl,
      )

  login_as-Follows :
      (username : String) (db : Db)
      → find_account env username db.accounts ≡ some a
      → guard_at db.accounts a.id ≡ some (guard_of a)
      → a.is_active ≡ true
      → 0 < session_seconds env scope db.settings
      → Returns
          (Follows a.id (attempt ctx.now (credentials_valid env ctx.now a r) (guard_of a)))
          (login_as env ctx scope r (some a) db)
  unfolding login_as attempt count_failure clear_failures
  login_as-Follows username db found key active lasting =
      elim (Bool-cases (after_now a.locked_until ctx.now)) [
        | inl locked ↦
            let shut : is_unavailable ctx.now a ≡ true = ground arith in
            rw (shut, locked) (failed-Seen _ _ _ key)
        | inr unlocked ↦
            let free : is_unavailable ctx.now a ≡ false = ground arith in
            elim (Bool-cases (credentials_valid env ctx.now a r)) [
              | inl valid ↦ rw (free, unlocked, valid) (opened-Follows username db found lasting)
              | inr invalid ↦ rw (free, unlocked, invalid) (fail-Follows username db found)
            ]
      ]

  -- On an active account, with a session length above 0, a login attempt returns and moves the account's guard, and answers, as the lockout
  -- automaton does at its time with the verdict on the password and the code. It is answered with
  -- tokens when they are right, and with one and the same refusal when they are wrong or the account is
  -- locked.
  pub perform_login-Follows :
      (db : Db)
      → find_account env (env.strip r.username) db.accounts ≡ some a
      → guard_at db.accounts a.id ≡ some (guard_of a)
      → a.is_active ≡ true
      → 0 < session_seconds env scope db.settings
      → Returns
          (Follows a.id (attempt ctx.now (credentials_valid env ctx.now a r) (guard_of a)))
          (perform_login env ctx scope r db)
  unfolding perform_login ◌>>=◌
  perform_login-Follows db found key active lasting =
      rw found (login_as-Follows (env.strip r.username) db found key active lasting)
