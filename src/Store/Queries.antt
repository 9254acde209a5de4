-- ===== src/Store/Queries.antt =====
-- The statements of main.py that several handlers share.
use rustdesk_managed_directo.Common.{
  ℕ, String, ◌<>◌, Bool, true, false, not, ◌&&◌, ◌||◌, Option, none, some, List, ◌∷◌, ◌==◌, str_eq,
  if◌then◌else◌, is_null, unexpired, same_text, find_where, latest_where,
}
use rustdesk_managed_directo.Http.{HttpError, http, Tx, done, raised, raise_if}
use rustdesk_managed_directo.Store.{
  Device, Credential, EnrollmentEvent, Audit, JobKind, Setting, number, text, other, Db,
  reserves_name,
}
use rustdesk_managed_directo.Store.Env.{Env}

-- Python's `x.strip() if x and x.strip() else None`.
unfoldable pub stripped : Env → Option String → Option String
stripped env none = none
stripped env (some name) =
    if str_eq name "" || str_eq (env.strip name) "" then none else some (env.strip name)

-- `ensure_friendly_name_available`: the row that the query looks for.
unfoldable pub reserves : Env → String → Option ℕ → Device → Bool
reserves env name exclude d =
    same_text (elim d.friendly_name [ none ↦ none | some n ↦ some (env.lower_btrim n) ])
      (env.lower_btrim name)
    && reserves_name d.status
    && (elim exclude [ none ↦ true | some id ↦ not (d.id == id) ])

unfoldable pub name_taken : Env → Option String → Option ℕ → List Device → Bool
unfolding reserves
name_taken env none exclude devices = false
name_taken env (some name) exclude devices =
    if str_eq (env.strip name) ""
    then false
    else not (is_null (find_where (reserves env (env.strip name) exclude) devices))

unfoldable pub ensure_friendly_name_available : Env → Option String → Option ℕ → Tx Db (Unit {0})
unfolding name_taken
ensure_friendly_name_available env name exclude db =
    raise_if (name_taken env name exclude db.devices)
      (http 409 "Friendly name is already reserved by another managed client") db

unfoldable pub get_device : List Device → ℕ → Option Device
get_device devices id = find_where (λ d. d.id == id) devices

abbrev pub found : {S A : Type 0} → Option A → HttpError → Tx S A
found none e s = raised e
found (some a) e s = done a s

unfoldable pub get_device_for_update : ℕ → Tx Db Device
unfolding get_device
get_device_for_update id db =
    found (get_device db.devices id) (http 404 "Managed device not found") db

-- WHERE device_id = … AND revoked_at IS NULL AND (expires_at IS NULL OR expires_at > NOW())
unfoldable pub is_active_credential : ℕ → ℕ → Credential → Bool
is_active_credential device_id now c =
    c.device_id == device_id && is_null c.revoked_at && unexpired c.expires_at now

unfoldable pub active_device_credential : ℕ → ℕ → List Credential → Option Credential
unfolding is_active_credential
active_device_credential device_id now credentials =
    latest_where (λ c. c.issued_at) (is_active_credential device_id now) credentials

-- `poll_token_hash`.
unfoldable pub poll_token_hash : Env → String → String
poll_token_hash env token = env.hmac_sha256 env.device_secret ("enrollment-poll:" <> token)

-- `token_hash`.
unfoldable pub token_hash : Env → String → String
token_hash env token = env.hmac_sha256 env.token_secret token

-- `_get_int_directory_setting`.
unfoldable pub get_int_directory_setting : Env → String → ℕ → List Setting → ℕ
get_int_directory_setting env key fallback settings =
    elim (find_where (λ s. str_eq s.setting_key key) settings) [
      | none ↦ fallback
      | some s ↦ elim s.setting_value [
        | number n ↦ n
        | text t ↦ elim (env.parse_int t) [ none ↦ fallback | some n ↦ n ]
        | other ↦ fallback
      ]
    ]

-- `_sec8_mode`: whether device passports are issued.
unfoldable pub sec8_mode : List Setting → String
sec8_mode settings = elim (find_where (λ s. str_eq s.setting_key "sec8.passport_mode") settings) [
  | none ↦ "off"
  | some s ↦ elim s.setting_value [
    | number n ↦ "off"
    | text t ↦ if str_eq t "off" || str_eq t "log" then t else "off"
    | other ↦ "off"
  ]
]

-- `write_enrollment_event`.
unfoldable pub write_enrollment_event : EnrollmentEvent → Tx Db (Unit {0})
write_enrollment_event event db =
    done tt (record db { enrollment_events = event ∷ db.enrollment_events })

-- `write_audit`.
unfoldable pub write_audit : Audit → Tx Db (Unit {0})
write_audit event db = done tt (record db { audit = event ∷ db.audit })

-- `sec8_enqueue`: a row of ca_jobs. The JSON payload is kept as the two values that RDS reads back.
unfoldable pub sec8_enqueue : ℕ → JobKind → ℕ → Option String → Option String → Tx Db (Unit {0})
sec8_enqueue job_id kind device_id idk prot db = done tt (record db {
  jobs =
      record {
        id = job_id;
        kind = kind;
        device_id = some device_id;
        expected_idk = idk;
        expected_prot = prot;
        is_done = false;
        ok = none;
      }
      ∷ db.jobs;
})
