-- ===== src/Tests/Staff.antt =====
-- The accounts of an Owner and a viewer: an invitation, a role change, a link that resets access, and
-- requests in a row.
use rustdesk_managed_directo.Common.{
  ◌≡◌, ◌≢◌, ◌⊎◌, refl, true, false, none, some, List, [], ◌∷◌, arith, str_eq, find_where,
  exists_where, All, ◌==◌,
}
use rustdesk_managed_directo.Http.{◌>>=◌}
use rustdesk_managed_directo.Http.Keeps.{Ends, Returns}
use rustdesk_managed_directo.Store.{
  Account, owner, manager, viewer, full, Invitation, InvitationStatus, RoleChange, ChangeStatus,
  Reset, totp_only, Db,
}
use rustdesk_managed_directo.Store.Env.{Env}
use rustdesk_managed_directo.Store.Queries.{get_int_directory_setting}
use rustdesk_managed_directo.Lifecycle.{Context}
use rustdesk_managed_directo.Operators.Gates.{Operator}
use rustdesk_managed_directo.Operators.Sessions.{
  operator_of, operator_idle_timeout, require_operator,
}
use rustdesk_managed_directo.Operators.SignIn.{
  LoginRequest, new_session, access_seconds, session_seconds, find_account, update_account,
}
use rustdesk_managed_directo.Operators.Accounts.{is_protected_brad_account}
use rustdesk_managed_directo.Operators.Invitations.{
  AcceptRequest, invitation_token_hash, has_token, new_account, accept_operator_invitation,
}
use rustdesk_managed_directo.Operators.Changes.{
  ChangeRequest, account_row, is_active_owner_row, is_unproven, is_unprepared,
  create_operator_role_change_request,
}
use rustdesk_managed_directo.Operators.Completion.{complete_operator_role_change_request}
use rustdesk_managed_directo.Operators.Resets.{
  ResetAcceptRequest, operator_access_reset_setup, operator_access_reset_accept,
}
use rustdesk_managed_directo.Operators.Steps.{
  Task, sign_in, disable, request_role, complete_role, perform_all,
}
use rustdesk_managed_directo.Operators.Disabled.{OnAccepted}
use rustdesk_managed_directo.Operators.Staffed.{serves_as_owner, promotes, was_owner}
use rustdesk_managed_directo.Operators.Staffed.Run.{
  perform_all-serves_as_owner, perform_all-promotes,
}
use rustdesk_managed_directo.Operators.Proven.{Proves, create_operator_role_change_request-Proves}
use rustdesk_managed_directo.Operators.Joined.{sign_in_with, accept-require_operator}
use rustdesk_managed_directo.Operators.Promoted.{complete-applies}
use rustdesk_managed_directo.Operators.Restored.{operator_access_reset_accept-Used}
use rustdesk_managed_directo.Tests.{env, account, db, ctx}

-- An authenticator that shows one code, and an access token with the claims of one sign-in.
abbrev outside : Env
outside = record env {
  totp_verify = λ secret code now. str_eq code "123456";
  decode_access = λ token now. some (record {
    sub = 4;
    sid = 7;
    role = manager;
    scope = full;
    kind = "access";
    iat = 200;
    exp = 1100;
    jti = 8;
  });
}

abbrev onlooker : Account
onlooker = record account {
  id = 11;
  username = "anna";
  role = viewer;
  totp_enabled = true;
  totp_secret = some "secret";
}

-- Anna is to become a Manager.
abbrev change : RoleChange
change = record {
  id = 50;
  target_account_id = 11;
  requested_role = manager;
  requested_by = 10;
  owner_password_verified_at = none;
  owner_totp_verified_at = none;
  status = ChangeStatus.pending;
  created_at = 90;
  expires_at = 1000;
  completed_by = none;
}

abbrev link : Reset
link = record {
  id = 60;
  account_id = 11;
  token_hash = "link";
  reset_mode = totp_only;
  requested_by = 10;
  created_at = 90;
  expires_at = 1900;
  used_at = none;
  revoked_at = none;
}

abbrev staffed : Db
staffed = record db {
  accounts = account ∷ onlooker ∷ [];
  role_changes = change ∷ [];
  resets = link ∷ [];
}

abbrev operator : Operator
operator = record {
  session_id = 20;
  account_id = 10;
  username = "brad";
  role = owner;
  must_change_password = false;
  scope = full;
}

abbrev promotion : ChangeRequest
promotion = record {
  requested_role = owner;
  reason = "successor";
  expires_in_minutes = 15;
  owner_password = some "password";
  owner_totp_code = some "123456";
}

abbrev login : LoginRequest
login = record { username = "brad"; password = "password"; totp_code = none }

abbrev tasks : List (Context × Task)
tasks =
    (ctx, complete_role operator 50 "agreed")
    ∷ (ctx, sign_in full login)
    ∷ (ctx, request_role operator 11 promotion)
    ∷ (ctx, disable operator 11 "left")
    ∷ []

owned : exists_where serves_as_owner staffed.accounts ≡ true
unfolding exists_where
owned = refl

perform_all-serves_as_owner_example :
    exists_where serves_as_owner (perform_all outside tasks staffed).accounts ≡ true
perform_all-serves_as_owner_example =
    perform_all-serves_as_owner outside tasks staffed (((refl, tt), (tt, tt)), (tt, tt), owned)

perform_all-promotes_example :
    All
      (λ a.
        a.role ≡ owner
        → (was_owner staffed.accounts a.id ≡ true)
          ⊎ (exists_where (promotes a.id) (perform_all outside tasks staffed).role_changes ≡ true))
      (perform_all outside tasks staffed).accounts
perform_all-promotes_example =
    perform_all-promotes outside tasks staffed (((refl, tt), (tt, tt)), (tt, tt), owned)

onlooker_row : account_row 11 staffed.accounts ≡ some onlooker
unfolding account_row find_where
onlooker_row = refl

owner_row : is_active_owner_row (account_row 10 staffed.accounts) ≡ true
unfolding account_row find_where is_active_owner_row
owner_row = refl

create-Proves_example :
    Ends
      (λ reply _. OnAccepted reply (Proves outside ctx.now operator staffed.accounts promotion))
      (create_operator_role_change_request outside ctx operator 11 promotion staffed)
create-Proves_example =
    create_operator_role_change_request-Proves outside ctx operator 11 promotion staffed onlooker
      onlooker_row refl

change_row : find_where (λ d. d.id == 50) staffed.role_changes ≡ some change
unfolding find_where
change_row = refl

not_protected_row : is_protected_brad_account outside onlooker ≡ false
unfolding is_protected_brad_account
not_protected_row = refl

proven_change : is_unproven change ≡ false
unfolding is_unproven
proven_change = refl

prepared : is_unprepared manager onlooker ≡ false
unfolding is_unprepared
prepared = refl

complete-applies_example :
    Returns
      (λ _ t.
        (t.accounts ≡ update_account onlooker (λ b. record b { role = manager }) staffed.accounts)
        × Ends (λ p _. p.account_id ≢ 11) (require_operator outside 200 (some "access") t))
      (complete_operator_role_change_request outside ctx operator 50 "agreed" staffed)
complete-applies_example =
    complete-applies outside ctx operator 50 "agreed" staffed change onlooker
      (record {
        row = change_row;
        target = onlooker_row;
        waits = refl;
        lasts = refl;
        open_to_change = not_protected_row;
        not_brad = refl;
        another = refl;
        active = refl;
        present = refl;
        changes = refl;
        proven = proven_change;
        prepared = prepared;
        completer = owner_row;
      })
      200 "access"

abbrev use_link : ResetAcceptRequest
use_link = record { reset_token = "link"; password = none; totp_code = "123456" }

abbrev use_again : ResetAcceptRequest
use_again = record {
  reset_token = "link";
  password = some "another password";
  totp_code = "654321";
}

operator_access_reset_accept-Used_example :
    Ends
      (λ _ t.
        Ends (λ _ _. ⊥) (operator_access_reset_setup outside 100 "link" t)
        × Ends (λ _ _. ⊥) (operator_access_reset_accept outside ctx "salt" use_again t)
        × Ends (λ o _. o.account_id ≢ 11) (require_operator outside 100 (some "access") t))
      (operator_access_reset_accept outside ctx "salt" use_link staffed)
operator_access_reset_accept-Used_example =
    operator_access_reset_accept-Used outside ctx "salt" use_link staffed 60 11
      ((λ h. (refl, refl)), tt) ctx "salt" use_again "access"

-- Bea is invited as a Manager, accepts, signs in at 200 and makes a request at 300.
abbrev invitation : Invitation
invitation = record {
  id = 70;
  target_account_id = none;
  proposed_username = some "bea";
  requested_role = manager;
  token_hash = "operator-invitation:welcome";
  created_by = 10;
  created_at = 90;
  expires_at = 1000;
  status = InvitationStatus.pending;
  accepted_account_id = none;
}

abbrev inviting : Db
inviting = record staffed { invitations = invitation ∷ [] }

abbrev acceptance : AcceptRequest
acceptance = record {
  invitation_token = "welcome";
  password = "bea's password";
  totp_code = "123456";
}

abbrev bea_login : LoginRequest
bea_login = record { username = "bea"; password = "bea's password"; totp_code = some "123456" }

abbrev at_200 : Context
at_200 = record ctx { now = 200; fresh_id = 7 }

abbrev bea : Account
bea = new_account outside 4 "salt" acceptance invitation "bea"

invited :
    find_where (has_token outside "welcome" inviting.accounts) inviting.invitations
    ≡ some invitation
unfolding find_where has_token exists_where invitation_token_hash
invited = refl

unnamed : find_account outside "bea" inviting.accounts ≡ none
unfolding find_account find_where
unnamed = refl

fresh_account : exists_where (λ b. b.id == 4) inviting.accounts ≡ false
unfolding exists_where
fresh_account = refl

thirty_days : session_seconds outside full inviting.settings ≡ 2592000
unfolding session_seconds get_int_directory_setting find_where
thirty_days = refl

fifteen_minutes : access_seconds outside inviting.settings ≡ 900
unfolding access_seconds get_int_directory_setting find_where
fifteen_minutes = refl

eight_hours : operator_idle_timeout outside inviting.settings ≡ 28800
unfolding operator_idle_timeout get_int_directory_setting find_where
eight_hours = refl

accept-require_operator_example :
    Returns
      (λ o _. o ≡ operator_of (new_session outside at_200 full bea inviting.settings) bea)
      ((accept_operator_invitation outside ctx "salt" acceptance
          >>= sign_in_with outside at_200 bea_login 300)
        inviting)
accept-require_operator_example =
    accept-require_operator outside ctx "salt" acceptance inviting invitation "bea" at_200 bea_login
      300 (record { row = invited; waits = refl; lasts = refl; plain = refl }) refl unnamed
      fresh_account refl refl refl (rw thirty_days (omega arith)) (rw thirty_days (omega arith))
      (rw eight_hours refl) (rw fifteen_minutes refl)
