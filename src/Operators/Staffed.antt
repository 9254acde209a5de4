-- ===== src/Operators/Staffed.antt =====
-- The invariant of the operators' tables: ids are unique, an active Owner is left, and whoever is an
-- Owner was one at the start or was promoted by a request that another person completed and whose maker
-- proved password and code.
pub mod Updates
pub mod Lifecycle
pub mod Invitations
pub mod Changes
pub mod Completion
pub mod Access
pub mod Run
use rustdesk_managed_directo.Common.{
  ℕ, ◌≡◌, Bool, true, false, not, ◌&&◌, ◌||◌, Option, none, some, List, ◌==◌, is_null, exists_where,
  All,
}
use rustdesk_managed_directo.Common.Distinct.{Distinct}
use rustdesk_managed_directo.Store.{Account, RoleChange, Db, is_owner, is_completed}

abbrev pub serves_as_owner : Account → Bool
serves_as_owner a = a.is_active && is_owner a.role

abbrev another : Option ℕ → ℕ → Bool
another none id = false
another (some o) id = not (o == id)

-- A completed request that made the account an Owner.
abbrev pub promotes : ℕ → RoleChange → Bool
promotes id c =
    c.target_account_id == id
    && is_owner c.requested_role
    && is_completed c.status
    && not (is_null c.owner_password_verified_at)
    && not (is_null c.owner_totp_verified_at)
    && another c.completed_by id

unfoldable pub was_owner : List Account → ℕ → Bool
was_owner start id = exists_where (λ b. b.id == id && is_owner b.role) start

abbrev pub is_entitled : List Account → List RoleChange → Account → Bool
is_entitled start changes a =
    not (is_owner a.role) || was_owner start a.id || exists_where (promotes a.id) changes

abbrev pub account_id : Account → ℕ
account_id a = a.id

abbrev pub change_id : RoleChange → ℕ
change_id c = c.id

abbrev pub Entitled : List Account → List Account → List RoleChange → Type 0
Entitled start accounts changes = All (λ a. is_entitled start changes a ≡ true) accounts

abbrev pub Staffed : List Account → Db → Type 0
Staffed start db =
    Distinct account_id db.accounts
    × Distinct change_id db.role_changes
    × (exists_where serves_as_owner db.accounts ≡ true)
    × Entitled start db.accounts db.role_changes

-- The row is the only one with its id.
abbrev pub Only : Account → List Account → Type 0
Only a accounts = All (λ b. (b.id == a.id) ≡ true → b ≡ a) accounts

abbrev pub Held : List Account → Account → Db → Type 0
Held start a db = Staffed start db × Only a db.accounts
