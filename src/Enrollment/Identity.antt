-- ===== src/Enrollment/Identity.antt =====
-- Whom an applicant claims to be, and the Owner's authorization to come back: the queries of
-- main.py `enroll_device`, `_active_reenrollment_state` and `complete_device_reenrollment`.
use rustdesk_managed_directo.Common.{
  ℕ, String, Bool, false, not, ◌&&◌, ◌||◌, Option, none, some, List, ◌==◌, str_eq, ltb,
  if◌then◌else◌, is_null, coalesce, same_text, find_where, latest_where,
}
use rustdesk_managed_directo.Store.{
  Device, Authorization, Recovery, Account, Db, is_pending, is_owner,
}
use rustdesk_managed_directo.Store.Env.{Env}
use rustdesk_managed_directo.Store.Queries.{get_device, poll_token_hash}
use rustdesk_managed_directo.Lifecycle.{is_open_authorization, is_open_recovery}

-- The cleaned payload of an enrollment.
pub record Applicant : Type 0 where
  pub rustdesk_id : String
  pub hostname : String
  pub friendly_name : Option String
  pub contact_email : Option String
  pub device_public_key : String

-- WHERE rustdesk_id = … OR device_public_key = …
unfoldable pub is_duplicate : Applicant → Device → Bool
is_duplicate a d =
    str_eq d.rustdesk_id a.rustdesk_id || str_eq d.device_public_key a.device_public_key

unfoldable pub is_exact : Applicant → Device → Bool
is_exact a d = str_eq d.rustdesk_id a.rustdesk_id && str_eq d.device_public_key a.device_public_key

unfoldable pub is_pending_identity : Applicant → Device → Bool
is_pending_identity a d = str_eq d.rustdesk_id a.rustdesk_id && is_pending d.status

-- `exact_device`: the row with both, or else a pending row with the same RustDesk ID.
unfoldable pub find_exact : Applicant → List Device → Option Device
find_exact a duplicates =
    coalesce (find_where (is_exact a) duplicates) (find_where (is_pending_identity a) duplicates)

-- `conflicting_devices` is not empty.
unfoldable pub conflicts : Device → List Device → Bool
conflicts exact duplicates = not (is_null (find_where (λ d. not (d.id == exact.id)) duplicates))

-- JOIN operator_accounts o ON o.id = a.requested_by … o.is_active AND o.role = 'owner'
unfoldable pub is_active_owner : List Account → ℕ → Bool
is_active_owner accounts id = elim (find_where (λ o. o.id == id) accounts) [
  | none ↦ false
  | some o ↦ o.is_active && is_owner o.role
]

unfoldable pub is_live_authorization : ℕ → ℕ → List Account → Authorization → Bool
unfolding is_active_owner is_open_authorization
is_live_authorization device_id now accounts a =
    is_open_authorization device_id a
    && ltb now a.expires_at
    && is_active_owner accounts a.requested_by

unfoldable pub live_authorization : ℕ → ℕ → Db → Option Authorization
live_authorization device_id now db =
    latest_where (λ a. a.created_at) (is_live_authorization device_id now db.accounts)
      db.authorizations

-- m.enrollment_poll_token_hash = …, for the device's own row
unfoldable pub has_poll_token : Env → String → ℕ → List Device → Bool
has_poll_token env token device_id devices = elim (get_device devices device_id) [
  | none ↦ false
  | some d ↦ same_text d.poll_token_hash (poll_token_hash env token)
]

-- The query that also wants the device's prior poll token; an absent or empty token finds nothing.
unfoldable pub continuity_authorization : Env → ℕ → ℕ → Option String → Db → Option Authorization
unfolding has_poll_token live_authorization
continuity_authorization env device_id now none db = none
continuity_authorization env device_id now (some token) db =
    if str_eq token "" || not (has_poll_token env token device_id db.devices)
    then none
    else live_authorization device_id now db

-- `_active_reenrollment_state`: the open request and the live authorization.
unfoldable pub active_request : ℕ → ℕ → List Recovery → Option Recovery
active_request device_id now recoveries =
    latest_where (λ r. r.requested_at) (λ r. is_open_recovery device_id r && ltb now r.expires_at)
      recoveries
