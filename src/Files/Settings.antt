-- ===== src/Files/Settings.antt =====
-- rustdrop.py: the settings that an Owner may change, and the ones that clients read.
use rustdesk_managed_directo.Common.{
  ℕ, String, ◌*◌, min, Option, none, some, List, [], ◌∷◌, str_eq, find_where, if◌then◌else◌,
}
use rustdesk_managed_directo.Http.{Tx, internal_error, raise, modify, pure, ◌>>=◌}
use rustdesk_managed_directo.Store.{Setting, SettingValue, number, text, other}
use rustdesk_managed_directo.Files.{Files, Reading}

abbrev pub setting_of : String → List Setting → Option SettingValue
setting_of key settings = elim (find_where (λ s. str_eq s.setting_key key) settings) [
  | none ↦ none
  | some s ↦ some s.setting_value
]

abbrev pub int_of : Reading → SettingValue → Option ℕ
int_of reading (number n) = some n
int_of reading (text t) = reading.parse_int t
int_of reading other = none

abbrev pub or_raise : Option ℕ → Tx Files ℕ
or_raise none files = raise (internal_error "ValueError") files
or_raise (some n) files = pure n files

abbrev pub read_int : Reading → ℕ → Option SettingValue → Option ℕ
read_int reading fallback none = some fallback
read_int reading fallback (some v) = int_of reading v

abbrev pub read_hours : Reading → Option SettingValue → Option ℕ
read_hours reading none = some (24 * 3600)
read_hours reading (some v) = reading.seconds_of_hours v

-- `_get_int_setting`, where `int` may raise
unfoldable pub get_int_setting : Reading → String → ℕ → Tx Files ℕ
get_int_setting reading key fallback files =
    or_raise (read_int reading fallback (setting_of key files.settings)) files

-- `_get_ttl_hours`, in seconds
unfoldable pub get_ttl : Reading → Tx Files ℕ
get_ttl reading files =
    or_raise (read_hours reading (setting_of "rustdrop.default_ttl_hours" files.settings)) files

abbrev pub max_drop_size : Reading → Tx Files ℕ
max_drop_size reading = get_int_setting reading "rustdrop.max_drop_size_bytes" 10737418240

abbrev pub stuck_days : Reading → Tx Files ℕ
stuck_days reading = get_int_setting reading "rustdrop.stuck_upload_backstop_days" 7

abbrev pub part_size_max : ℕ
part_size_max = 94371840

-- `get_transfer_config`
unfoldable pub get_transfer_config : Reading → Tx Files (ℕ × ℕ × ℕ)
get_transfer_config reading = do
  part ← get_int_setting reading "rustdrop.part_size_bytes" 8388608
  throughput ← get_int_setting reading "rustdrop.min_throughput_bps" 100000
  giveup ← get_int_setting reading "rustdrop.stall_giveup_minutes" 30
  pure (min part part_size_max, throughput, giveup)

-- `RustdropSettingsRequest`: each setting's key with the value that was sent for it. Pydantic has
-- checked their bounds.
abbrev pub SettingsRequest : Type 0
SettingsRequest = List (String × SettingValue)

-- INSERT … ON CONFLICT (setting_key) DO UPDATE
unfoldable pub upsert_setting : String → SettingValue → List Setting → List Setting
upsert_setting key value [] = record { setting_key = key; setting_value = value } ∷ []
upsert_setting key value (s ∷ ss) =
    let rest = upsert_setting key value ss in
    if str_eq s.setting_key key
    then record { setting_key = key; setting_value = value } ∷ ss
    else s ∷ rest

unfoldable pub upsert_settings : SettingsRequest → List Setting → List Setting
upsert_settings [] settings = settings
upsert_settings ((key, value) ∷ rest) settings =
    upsert_settings rest (upsert_setting key value settings)

-- `set_filedrop_settings`
unfoldable pub set_filedrop_settings : SettingsRequest → Tx Files (Unit {0})
set_filedrop_settings updates =
    modify (λ files. record files { settings = upsert_settings updates files.settings })
