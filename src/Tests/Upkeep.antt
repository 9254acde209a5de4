-- ===== src/Tests/Upkeep.antt =====
-- A client that renames itself, and the deletion of a revoked device.
use rustdesk_managed_directo.Common.{
  none, some, [], ◌∷◌, List, ◌≡◌, refl, find_where, update_where, select,
}
use rustdesk_managed_directo.Http.{commit, ◌>>=◌}
use rustdesk_managed_directo.Store.Queries.{
  get_device_for_update, write_audit, name_taken, reserves, get_device,
}
use rustdesk_managed_directo.Devices.{
  require_device, validate_device_credential, check_claims, check_key, accepts_device,
  accepts_credential,
}
use rustdesk_managed_directo.Store.Names.{Names, name_at}
use rustdesk_managed_directo.Store.View.{status_in}
use rustdesk_managed_directo.Lifecycle.{Context}
use rustdesk_managed_directo.Upkeep.{
  Action, Heartbeat, heartbeat, delete, act, act_all, device_heartbeat, renames, seen,
  delete_device, require_admin_device_manager, delete_device_row,
}
use rustdesk_managed_directo.Upkeep.Statuses.{Steps, act-Steps}
use rustdesk_managed_directo.Upkeep.Reserved.{act_all-Names}
use rustdesk_managed_directo.Tests.{env, db, ctx, operator, db-Sound, db-Names}

abbrev renamed : Heartbeat
renamed = record { hostname = none; friendly_name = some "front desk" }

abbrev actions : List (Context × Action)
actions = (ctx, heartbeat (some "token-1") renamed) ∷ (ctx, delete operator 3 "sold") ∷ []

act-Steps_example : Steps db.devices (act env ctx (delete operator 3 "sold") db).devices
act-Steps_example = act-Steps env ctx (delete operator 3 "sold") db db-Sound.0

act_all-Names_example : Names env (act_all env actions db)
act_all-Names_example = act_all-Names env actions db db-Names

-- The client has its new name, and the revoked device is gone.
renamed_runs : name_at env (act_all env actions db).devices 1 ≡ some "front desk"
unfolding act_all act device_heartbeat renames seen delete_device require_admin_device_manager
    delete_device_row commit require_device validate_device_credential check_claims check_key
    accepts_device accepts_credential get_device_for_update write_audit name_taken reserves name_at
    status_in get_device find_where update_where select ◌>>=◌
renamed_runs = refl

deleted_runs : status_in (act_all env actions db).devices 3 ≡ none
unfolding act_all act device_heartbeat renames seen delete_device require_admin_device_manager
    delete_device_row commit require_device validate_device_credential check_claims check_key
    accepts_device accepts_credential get_device_for_update write_audit name_taken reserves name_at
    status_in get_device find_where update_where select ◌>>=◌
deleted_runs = refl
