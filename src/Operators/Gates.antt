-- ===== src/Operators/Gates.antt =====
-- The gates of main.py that routes depend on. Each takes the operator that `require_operator`
-- returned and raises, or lets it through.
use rustdesk_managed_directo.Common.{ℕ, String, Bool, not, ◌||◌, str_eq}
use rustdesk_managed_directo.Http.{Tx, http, raise_if}
use rustdesk_managed_directo.Store.{Role, Scope, Db, is_owner, manages_devices, is_mobile}
use rustdesk_managed_directo.Store.Env.{Env}

-- The row that `require_operator` returns.
pub record Operator : Type 0 where
  pub session_id : ℕ
  pub account_id : ℕ
  pub username : String
  pub role : Role
  pub must_change_password : Bool
  pub scope : Scope

-- `_enforce_owner`
unfoldable pub enforce_owner : Operator → Tx Db (Unit {0})
enforce_owner o =
    raise_if (not (is_owner o.role) || o.must_change_password || is_mobile o.scope)
      (http 403 "Owner authorization is required")

-- `require_device_manager`
unfoldable pub require_device_manager : Operator → Tx Db (Unit {0})
require_device_manager o =
    raise_if (not (manages_devices o.role) || o.must_change_password)
      (http 403 "Owner or Manager authorization is required")

-- `require_full_scope_operator`
unfoldable pub require_full_scope_operator : Operator → Tx Db (Unit {0})
require_full_scope_operator o =
    raise_if (is_mobile o.scope) (http 403 "This action is not available to this session")

-- `_enforce_brad_only` after `_enforce_owner`: the operator's row has no key `id`, so the username
-- decides.
unfoldable pub enforce_brad_only : Env → Operator → Tx Db (Unit {0})
enforce_brad_only env o =
    raise_if (not (str_eq (env.lower (env.strip o.username)) "brad"))
      (http 403 "This action is restricted to Brad's account")
