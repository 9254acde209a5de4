-- ===== src/Files/Configured.antt =====
-- A setting that is saved is the one that clients read.
use rustdesk_managed_directo.Common.{
  ℕ, String, ◌≡◌, refl, ap, ◌∙◌, min, false, some, List, [], ◌∷◌, inl, inr, str_eq, str_eq_iff,
  find_where, Bool-cases,
}
use rustdesk_managed_directo.Http.{done, ◌>>=◌}
use rustdesk_managed_directo.Http.Keeps.{Returns}
use rustdesk_managed_directo.Store.{Setting, SettingValue, number}
use rustdesk_managed_directo.Files.{Files, Reading}
use rustdesk_managed_directo.Files.Settings.{
  setting_of, read_int, get_int_setting, part_size_max, get_transfer_config, upsert_setting,
  upsert_settings, set_filedrop_settings,
}

upsert_setting-same :
    (key : String) (v : SettingValue) (ss : List Setting)
    → setting_of key (upsert_setting key v ss) ≡ some v
unfolding upsert_setting find_where
upsert_setting-same key v [] = let own = (str_eq_iff key key).1 refl in rw (setting_of, own) refl
upsert_setting-same key v (s ∷ ss) = elim (Bool-cases (str_eq s.setting_key key)) [
  | inl e ↦ let own = (str_eq_iff key key).1 refl in rw (e, setting_of, own) refl
  | inr e ↦ rw (e, setting_of, e) (upsert_setting-same key v ss)
]

upsert_setting-apart :
    (key k : String) (v : SettingValue) (ss : List Setting)
    → str_eq key k ≡ false
    → setting_of k (upsert_setting key v ss) ≡ setting_of k ss
unfolding upsert_setting find_where
upsert_setting-apart key k v [] apart = rw (setting_of, apart) refl
upsert_setting-apart key k v (s ∷ ss) apart = elim (Bool-cases (str_eq s.setting_key key)) [
  | inl e ↦
      let same : s.setting_key ≡ key = (str_eq_iff _ _).0 e in
      let f : str_eq s.setting_key k ≡ false = ap (λ (t : String). str_eq t k) same ∙ apart in
      rw (e, setting_of, apart, f) refl
  | inr e ↦ elim (Bool-cases (str_eq s.setting_key k)) [
    | inl g ↦ rw (e, setting_of, g) refl
    | inr g ↦ rw (e, setting_of, g) (upsert_setting-apart key k v ss apart)
  ]
]

module _ (reading : Reading) where
  -- After a new size of parts is saved, the configuration that clients read has it, but no more than
  -- the 90 MiB that fit through the proxy, and the throughput and the time to give up that it had before.
  pub set-get_transfer_config :
      (n throughput giveup : ℕ) (files : Files)
      → read_int reading 100000 (setting_of "rustdrop.min_throughput_bps" files.settings)
        ≡ some throughput
      → read_int reading 30 (setting_of "rustdrop.stall_giveup_minutes" files.settings)
        ≡ some giveup
      → Returns
          (λ _ t. get_transfer_config reading t ≡ done (min n part_size_max, throughput, giveup) t)
          (set_filedrop_settings (("rustdrop.part_size_bytes", number n) ∷ []) files)
  unfolding get_transfer_config set_filedrop_settings upsert_settings get_int_setting ◌>>=◌
  set-get_transfer_config n throughput giveup files first second =
      rw
        (
          get_transfer_config,
          upsert_setting-same "rustdrop.part_size_bytes" (number n) files.settings,
          upsert_setting-apart "rustdrop.part_size_bytes" "rustdrop.min_throughput_bps" (number n)
              files.settings refl,
          first,
          upsert_setting-apart "rustdrop.part_size_bytes" "rustdrop.stall_giveup_minutes" (number n)
              files.settings refl,
          second,
        )
        refl
