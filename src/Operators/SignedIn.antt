-- ===== src/Operators/SignedIn.antt =====
-- Whom `require_operator` lets through.
use rustdesk_managed_directo.Common.{
  ℕ, String, ◌≡◌, refl, sym, true, false, ◌&&◌, Option, none, some, List, ◌==◌, arith, str_eq_iff,
  ltb, inl, inr, Option-cases, is_null, find_where_sound,
}
use mathlib.Core.List.{Mem}
use rustdesk_managed_directo.Common.Members.{find_where-Mem}
use rustdesk_managed_directo.Http.{modify, pure, unauthorized, ◌>>=◌, ◌>>◌}
use rustdesk_managed_directo.Http.Keeps.{Ends}
use rustdesk_managed_directo.Store.{Account, Session, Db}
use rustdesk_managed_directo.Store.Env.{Env, AccessClaims}
use rustdesk_managed_directo.Store.Queries.{found, token_hash}
use rustdesk_managed_directo.Operators.Gates.{Operator}
use rustdesk_managed_directo.Operators.Sessions.{
  operator_idle_timeout, is_open_session, active_account, operator_of, joined, operator_row,
  touch_session, access_claims, operator_with, require_operator,
}

-- The operator's session and account, as the tables had them.
record SignedIn (env : Env) (now : ℕ) (token : String) (db : Db) (o : Operator) : Type 0 where
  claims : AccessClaims
  reads : access_claims env now (some token) ≡ some claims
  session : Session
  on_file : Mem session db.sessions
  open_session :
      is_open_session env now (operator_idle_timeout env db.settings) claims token session ≡ true
  account : Account
  known : Mem account db.accounts
  active : (account.id == session.account_id && account.is_active) ≡ true
  row : o ≡ operator_of session account

-- What a request with the token may rely on: rows of the tables that the request found.
pub record LetIn (env : Env) (now : ℕ) (token : String) (db : Db) (o : Operator) : Type 0 where
  pub session : Session
  pub account : Account
  pub on_file : Mem session db.sessions
  pub known : Mem account db.accounts
  pub row : o ≡ operator_of session account
  pub owns : account.id ≡ session.account_id
  pub active : account.is_active ≡ true
  pub digest : session.access_token_hash ≡ token_hash env token
  pub unrevoked : is_null session.revoked_at ≡ true
  pub unexpired : ltb now session.expires_at ≡ true
  pub authenticated : is_null session.mfa_verified_at ≡ false

SignedIn-LetIn :
    (env : Env) (now : ℕ) (token : String) (db : Db) (o : Operator)
    → SignedIn env now token db o
    → LetIn env now token db o
unfolding is_open_session
SignedIn-LetIn env now token db o s =
    let p = s.open_session in
    let q = s.active in
    record {
      session = s.session;
      account = s.account;
      on_file = s.on_file;
      known = s.known;
      row = s.row;
      owns = ground (arith, q);
      active = ground (arith, q);
      digest = (str_eq_iff _ _).0 (ground (arith, p));
      unrevoked = ground (arith, p);
      unexpired = ground (arith, p);
      authenticated = ground (arith, p);
    }

pub joined-tells :
    (accounts : List Account) (r : Option Session) (o : Operator)
    → joined accounts r ≡ some o
    → (s : Session) × (a : Account) × (r ≡ some s)
      × (active_account accounts s.account_id ≡ some a)
      × (o ≡ operator_of s a)
unfolding joined
joined-tells accounts none o h = cc
joined-tells accounts (some s) o h = elim (Option-cases (active_account accounts s.account_id)) [
  | inl off ↦ let q : none ≡ some o = (rw (joined, off) at h) in cc q
  | inr (a, on) ↦
      let q : some (operator_of s a) ≡ some o = (rw (joined, on) at h) in
      (s, a, refl, on, sym (cc q))
]

operator_row-SignedIn :
    (env : Env) (now : ℕ) (token : String) (db : Db) (claims : AccessClaims) (o : Operator)
    → access_claims env now (some token) ≡ some claims
    → operator_row env now claims token db ≡ some o
    → SignedIn env now token db o
unfolding operator_row active_account
operator_row-SignedIn env now token db claims o reads h =
    let j = joined-tells db.accounts _ o h in
    record {
      claims = claims;
      reads = reads;
      session = j.0;
      on_file = find_where-Mem _ db.sessions j.2;
      open_session = find_where_sound _ db.sessions j.2;
      account = j.1;
      known = find_where-Mem _ db.accounts j.3;
      active = find_where_sound _ db.accounts j.3;
      row = j.4;
    }

-- What holds of every row of the query holds of whom require_operator lets in.
pub require_operator-row :
    (env : Env) (now : ℕ) (token : String) (db : Db) (Q : Operator → Type 0)
    → ((claims : AccessClaims) (o : Operator) → operator_row env now claims token db ≡ some o → Q o)
    → Ends (λ o _. Q o) (require_operator env now (some token) db)
unfolding require_operator operator_with ◌>>=◌
require_operator-row env now token db Q h = go (access_claims env now (some token))
  where
    row :
        (claims : AccessClaims) (r : Option Operator)
        → operator_row env now claims token db ≡ r
        → Ends
            (λ o _. Q o)
            (((λ s. found r unauthorized s) >>= λ operator.
                modify
                  (λ s. record s { sessions = touch_session operator.session_id now s.sessions })
                >> pure operator)
              db)
    row claims none was = tt
    row claims (some o) was = h claims o was

    go : (c : Option AccessClaims) → Ends (λ o _. Q o) (operator_with env now token c db)
    go none = tt
    go (some claims) = row claims (operator_row env now claims token db) refl

-- For an operator who is let through, the table of sessions has a row with the token's digest that is
-- not revoked, has not expired and passed a second factor, and the table of accounts has an active
-- row that owns it; the operator is what the two rows say, and the request changes nothing but the
-- session's last_seen_at.
pub require_operator-LetIn :
    (env : Env) (now : ℕ) (token : String) (db : Db)
    → Ends
        (λ o t.
          LetIn env now token db o
          × (t ≡ record db { sessions = touch_session o.session_id now db.sessions }))
        (require_operator env now (some token) db)
unfolding require_operator operator_with ◌>>=◌
require_operator-LetIn env now token db = go (access_claims env now (some token)) refl
  where
    row :
        (claims : AccessClaims)
        → access_claims env now (some token) ≡ some claims
        → (r : Option Operator) → operator_row env now claims token db ≡ r
        → Ends
            (λ o t.
              LetIn env now token db o
              × (t ≡ record db { sessions = touch_session o.session_id now db.sessions }))
            (((λ s. found r unauthorized s) >>= λ operator.
                modify
                  (λ s. record s { sessions = touch_session operator.session_id now s.sessions })
                >> pure operator)
              db)
    row claims reads none was = tt
    row claims reads (some o) was = (
      SignedIn-LetIn env now token db o (operator_row-SignedIn env now token db claims o reads was),
      refl,
    )

    go :
        (c : Option AccessClaims)
        → access_claims env now (some token) ≡ c
        → Ends
            (λ o t.
              LetIn env now token db o
              × (t ≡ record db { sessions = touch_session o.session_id now db.sessions }))
            (operator_with env now token c db)
    go none reads = tt
    go (some claims) reads = row claims reads (operator_row env now claims token db) refl
