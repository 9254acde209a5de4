-- ===== src/Tests/Accounts.antt =====
-- A viewer's account that an Owner disables, or whose sessions an Owner revokes.
use rustdesk_managed_directo.Common.{◌≡◌, ◌≢◌, refl, false, some, [], ◌∷◌, find_where}
use rustdesk_managed_directo.Http.Keeps.{Ends}
use rustdesk_managed_directo.Store.{Account, owner, viewer, full, Db}
use rustdesk_managed_directo.Operators.Gates.{Operator}
use rustdesk_managed_directo.Operators.Sessions.{require_operator}
use rustdesk_managed_directo.Operators.Accounts.{live_account, disable_operator_account}
use rustdesk_managed_directo.Operators.Disabled.{OnAccepted, disable-SignedOut}
use rustdesk_managed_directo.Tests.{env, account, db, ctx}

abbrev onlooker : Account
onlooker = record account { id = 11; username = "anna"; role = viewer }

abbrev two_accounts : Db
two_accounts = record db { accounts = account ∷ onlooker ∷ [] }

abbrev operator : Operator
operator = record {
  session_id = 20;
  account_id = 10;
  username = "brad";
  role = owner;
  must_change_password = false;
  scope = full;
}

onlooker_found : live_account 11 two_accounts.accounts ≡ some onlooker
unfolding live_account find_where
onlooker_found = refl

disable-SignedOut_example :
    Ends
      (λ reply t.
        OnAccepted reply
          (Ends (λ p _. p.account_id ≢ 11) (require_operator env 200 (some "access") t)))
      (disable_operator_account env ctx operator 11 "left" two_accounts)
disable-SignedOut_example =
    disable-SignedOut env ctx operator 11 "left" two_accounts onlooker onlooker_found
      (λ h. cc h, (λ h. refl, tt)) 200 "access"
