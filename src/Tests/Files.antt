-- ===== src/Tests/Files.antt =====
-- A drop from device 1 to device 2, uploaded and not yet delivered.
use rustdesk_managed_directo.Common.{
  suc, ◌≡◌, ◌≤◌, ◌+◌, refl, true, none, some, List, [], ◌∷◌, ◌==◌, arith, leb, find_where, length,
}
use rustdesk_managed_directo.Http.{done, ◌>>=◌}
use rustdesk_managed_directo.Http.Keeps.{Returns}
use rustdesk_managed_directo.Files.{Drop, Files, Reading, complete}
use rustdesk_managed_directo.Files.Settings.{get_int_setting, max_drop_size, stuck_days}
use rustdesk_managed_directo.Files.Drops.{
  complete_drop, download_drop, decline_drop, fetch_drop, sweep_expired_drops,
}
use rustdesk_managed_directo.Files.Relay.{
  stored, bounded_stream, sum, begin_upload, end_part_upload, bounded_stream-sum,
}
use rustdesk_managed_directo.Files.Steps.{Step, decline, step, steps}
use rustdesk_managed_directo.Files.Swept.{steps-swept}
use rustdesk_managed_directo.Files.Parties.{
  Checked, may_confirm, may_download, may_decline, may_upload, drop-Checked,
}
use rustdesk_managed_directo.Files.Delivered.{complete_drop-recounts}

abbrev reading : Reading
reading = record {
  parse_int = λ t. none;
  seconds_of_hours = λ v. none;
  first_32 = λ t. t;
  starts_at_zero = λ t. true;
}

abbrev photo : Drop
photo = record {
  id = 5;
  sender_device_id = 1;
  recipient_device_id = 2;
  filename = "photo";
  declared_size = 10;
  bytes_uploaded = 10;
  storage_key = 9;
  status = complete;
  content_sha256 = none;
  sender_public_key = "key";
  created_at = 100;
  updated_at = 100;
  expires_at = some 86500;
}

abbrev files : Files
files = record { devices = []; registrations = []; drops = photo ∷ []; events = []; settings = [] }

photo_row : find_where (λ e. e.id == 5) files.drops ≡ some photo
unfolding find_where
photo_row = refl

size_limit : max_drop_size reading files ≡ done 10737418240 files
unfolding get_int_setting find_where ◌>>=◌
size_limit = refl

bounded_stream-sum_example :
    ((bounded_stream 10 0 (4 ∷ 4 ∷ 4 ∷ [])).bytes ≤ 10)
    × ((bounded_stream 10 0 (4 ∷ 4 ∷ 4 ∷ [])).whole ≡ leb (0 + sum (4 ∷ 4 ∷ 4 ∷ [])) 10)
    × ((bounded_stream 10 0 (4 ∷ 4 ∷ 4 ∷ [])).whole ≡ true
        → (bounded_stream 10 0 (4 ∷ 4 ∷ 4 ∷ [])).bytes ≡ 0 + sum (4 ∷ 4 ∷ 4 ∷ []))
bounded_stream-sum_example = bounded_stream-sum 10 0 (4 ∷ 4 ∷ 4 ∷ []) (omega arith)

-- Another device may not decline the drop.
abbrev some_steps : List Step
some_steps = decline 5 3 ∷ []

declined_not : steps reading some_steps files ≡ files
unfolding steps step decline_drop fetch_drop find_where ◌>>=◌
declined_not = refl

one_week : stuck_days reading files ≡ done 7 files
unfolding get_int_setting find_where ◌>>=◌
one_week = refl

steps-swept_example :
    Returns
      (λ removed t. t.drops ≡ [])
      (sweep_expired_drops reading 9000000 (steps reading some_steps files))
steps-swept_example =
    steps-swept reading some_steps files 9000000 7 (refl, tt) (rw declined_not one_week)
      (rw declined_not (refl, tt))

drop-Checked_example :
    Checked (complete_drop 200 5 2) (may_confirm 2) 5 files
    × Checked (download_drop reading 200 5 2 none) (may_download 2) 5 files
    × Checked (decline_drop 5 2) (may_decline 2) 5 files
    × Checked (begin_upload reading 5 2) (may_upload 2) 5 files
drop-Checked_example = drop-Checked reading 200 5 2 files none 10737418240 size_limit

complete_drop-recounts_example :
    Returns
      (λ _ t. length t.events ≡ suc (suc (length files.events)))
      ((complete_drop 200 5 2 >>= λ _.
          end_part_upload reading 250 5 (stored 10 true none) >>= λ _. complete_drop 300 5 2)
        files)
unfolding find_where
complete_drop-recounts_example =
    complete_drop-recounts reading 5 2 photo refl 200 250 300 10 86400 none files photo_row refl
      refl
