-- ===== src/Files/Steps.antt =====
-- The transactions of rustdrop.py in any order: an upload is one that checks and, when the storage has
-- answered, one of those that end it.
use rustdesk_managed_directo.Common.{ℕ, String, Option, List, [], ◌∷◌}
use rustdesk_managed_directo.Http.{Outcome, done, raised}
use rustdesk_managed_directo.Files.{Files, Reading}
use rustdesk_managed_directo.Files.Settings.{SettingsRequest, set_filedrop_settings}
use rustdesk_managed_directo.Files.Relay.{StorageReply, end_whole_upload, end_part_upload}
use rustdesk_managed_directo.Files.Drops.{
  register_device, create_drop, mark_drop_failed, download_drop, complete_drop, decline_drop,
  sweep_expired_drops,
}

pub data Step : Type 0 where
  register : ℕ → ℕ → String → List String → Step
  create : ℕ → ℕ → ℕ → ℕ → ℕ → String → ℕ → String → Step
  end_whole : ℕ → ℕ → StorageReply → Step
  end_part : ℕ → ℕ → StorageReply → Step
  fail : ℕ → ℕ → Step
  download : ℕ → ℕ → ℕ → Option String → Step
  confirm : ℕ → ℕ → ℕ → Step
  decline : ℕ → ℕ → Step
  sweep : ℕ → Step
  configure : SettingsRequest → Step

abbrev pub files_after : {A : Type 0} → Files → Outcome Files A → Files
files_after files (done a t) = t
files_after files (raised e) = files

-- The tables after a transaction, committed or rolled back.
unfoldable pub step : Reading → Step → Files → Files
step reading (register now self key capabilities) files =
    files_after files (register_device reading now self key capabilities files)
step reading (create id key now self recipient filename size public_key) files =
    files_after files (create_drop reading id key now self recipient filename size public_key files)
step reading (end_whole now id reply) files =
    files_after files (end_whole_upload reading now id reply files)
step reading (end_part now id reply) files =
    files_after files (end_part_upload reading now id reply files)
step reading (fail now id) files = files_after files (mark_drop_failed now id files)
step reading (download now id self range) files =
    files_after files (download_drop reading now id self range files)
step reading (confirm now id self) files = files_after files (complete_drop now id self files)
step reading (decline id self) files = files_after files (decline_drop id self files)
step reading (sweep now) files = files_after files (sweep_expired_drops reading now files)
step reading (configure updates) files = files_after files (set_filedrop_settings updates files)

unfoldable pub steps : Reading → List Step → Files → Files
steps reading [] files = files
steps reading (s ∷ ss) files = steps reading ss (step reading s files)
