-- ===== src/Operators/Joined.antt =====
-- An invitation from its token to the first request of the new operator.
use rustdesk_managed_directo.Common.{
  ℕ, String, ◌≡◌, refl, true, false, none, some, List, ◌∷◌, ◌==◌, ◌+◌, ◌<◌, leb, ltb, str_eq,
  find_where, exists_where,
}
use rustdesk_managed_directo.Http.{Reply, accepted, refused, Tx, raise, ◌>>=◌}
use rustdesk_managed_directo.Http.Keeps.{Returns}
use rustdesk_managed_directo.Store.{Account, Invitation, full, Db, is_owner, is_pending_invitation}
use rustdesk_managed_directo.Store.Env.{Env}
use rustdesk_managed_directo.Store.Queries.{write_audit}
use rustdesk_managed_directo.Lifecycle.{Context}
use rustdesk_managed_directo.Operators.Gates.{Operator}
use rustdesk_managed_directo.Operators.Sessions.{operator_idle_timeout, operator_of}
use rustdesk_managed_directo.Operators.SignIn.{
  LoginRequest, access_claims_of, issue_access_token, session_seconds, find_account,
  credentials_valid, new_session, perform_login,
}
use rustdesk_managed_directo.Operators.RoundTrip.{request_with, perform_login-require_operator}
use rustdesk_managed_directo.Operators.Invitations.{
  AcceptRequest, invitation_totp_secret, has_token, pending_invitation_for_token, with_invitation,
  new_account, insert_account, accept_named, accept_operator_invitation,
}

-- The sign-in that follows the acceptance, and a request with its token.
abbrev pub sign_in_with : Env → Context → LoginRequest → ℕ → Reply ℕ → Tx Db Operator
sign_in_with env ctx l later (accepted id) = perform_login env ctx full l >>= request_with env later
sign_in_with env ctx l later (refused e) = raise e

-- The invitation is the token's, pending and not expired, and not for an Owner.
pub record Usable (env : Env) (now : ℕ) (token : String) (db : Db) (i : Invitation) : Type 0 where
  pub row : find_where (has_token env token db.accounts) db.invitations ≡ some i
  pub waits : is_pending_invitation i.status ≡ true
  pub lasts : leb i.expires_at now ≡ false
  pub plain : is_owner i.requested_role ≡ false

find_account-first :
    (env : Env) (username : String) (a : Account) (accounts : List Account)
    → str_eq (env.lower a.username) (env.lower username) ≡ true
    → find_account env username (a ∷ accounts) ≡ some a
unfolding find_account find_where
find_account-first env username a accounts same = rw same refl

module _ (env : Env) (ctx : Context) (salt : String) (r : AcceptRequest) (db : Db) (i : Invitation)
    (name : String) where
  -- Whoever accepts an open invitation with a right code, under a name that no account has, and signs in
  -- with that name, the password and a right code, is let in, in the role of the invitation, if the
  -- password fits the hash made of it, and as long as the session lasts and its token can be read.
  pub accept-require_operator :
      (ctx' : Context) (l : LoginRequest) (later : ℕ)
      → Usable env ctx.now r.invitation_token db i
      → i.proposed_username ≡ some name
      → find_account env name db.accounts ≡ none
      → exists_where (λ b. b.id == ctx.fresh_id) db.accounts ≡ false
      → env.totp_verify (invitation_totp_secret env r.invitation_token) r.totp_code ctx.now ≡ true
      → str_eq (env.lower name) (env.lower (env.strip l.username)) ≡ true
      → credentials_valid env ctx'.now (new_account env ctx.fresh_id salt r i name) l ≡ true
      → later < ctx'.now + session_seconds env full db.settings
      → 0 < session_seconds env full db.settings
      → ltb later (ctx'.now + operator_idle_timeout env db.settings) ≡ true
      → env.decode_access
          (issue_access_token env ctx' ctx.fresh_id ctx'.fresh_id i.requested_role full db.settings)
          later
        ≡ some
            (access_claims_of env ctx' ctx.fresh_id ctx'.fresh_id i.requested_role full db.settings)
      → Returns
          (λ o _.
            o
            ≡ operator_of
                (new_session env ctx' full (new_account env ctx.fresh_id salt r i name) db.settings)
                (new_account env ctx.fresh_id salt r i name))
          ((accept_operator_invitation env ctx salt r >>= sign_in_with env ctx' l later) db)
  unfolding accept_operator_invitation with_invitation pending_invitation_for_token accept_named
      insert_account write_audit ◌>>=◌
  accept-require_operator ctx' l later usable named free fresh code same valid before lasting idle
        reads =
      rw (usable.row, usable.waits, usable.lasts, usable.plain, code, named, free, fresh)
        (perform_login-require_operator env ctx' full l (new_account env ctx.fresh_id salt r i name)
          later _ (find_account-first env _ _ db.accounts same) refl valid before lasting idle
          reads)
