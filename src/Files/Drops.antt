-- ===== src/Files/Drops.antt =====
-- rustdrop.py: registrations and drops.
use rustdesk_managed_directo.Common.{
  ℕ, String, ◌+◌, ◌*◌, Bool, true, false, not, ◌&&◌, ◌||◌, Option, none, some, List, [], ◌∷◌, ◌==◌,
  ltb, leb, if◌then◌else◌, map, select, exists_where, find_where, update_where,
}
use rustdesk_managed_directo.Http.{http, Tx, gets, modify, pure, raise_if, ◌>>=◌, ◌>>◌}
use rustdesk_managed_directo.Store.{is_approved}
use rustdesk_managed_directo.Store.Queries.{found}
use rustdesk_managed_directo.Chat.{Peer}
use rustdesk_managed_directo.Files.{
  Registration, uploading, complete, delivered, failed, Drop, TransferEvent, Files, Reading,
  is_uploading, is_complete, is_delivered, is_failed,
}
use rustdesk_managed_directo.Files.Settings.{get_ttl, max_drop_size, stuck_days}

-- `register_device`
unfoldable pub upsert_registration :
    ℕ → ℕ → String → List String → List Registration → List Registration
upsert_registration now device key capabilities [] =
    record {
      device_id = device;
      registered_at = now;
      last_seen_at = now;
      public_key = key;
      capabilities = capabilities;
    }
    ∷ []
upsert_registration now device key capabilities (r ∷ rs) =
    let rest = upsert_registration now device key capabilities rs in
    if r.device_id == device
    then record r { last_seen_at = now; public_key = key; capabilities = capabilities } ∷ rs
    else r ∷ rest

unfoldable pub register_device : Reading → ℕ → ℕ → String → List String → Tx Files (Unit {0})
register_device reading now self key capabilities = modify (λ files. record files {
  registrations =
      upsert_registration now self key (map reading.first_32 capabilities) files.registrations;
})

-- REGISTRATION_STALE_AFTER, in seconds
abbrev pub stale_after : ℕ
stale_after = 30 * 86400

unfoldable pub is_registered : ℕ → ℕ → Registration → Bool
is_registered now device r = r.device_id == device && ltb now (r.last_seen_at + stale_after)

-- The device may be sent to: managed_devices JOIN rustdrop_registrations.
unfoldable pub is_available : ℕ → List Registration → Peer → Bool
is_available now registrations d =
    is_approved d.status && exists_where (is_registered now d.id) registrations

-- The rows of `list_devices`, in no order.
unfoldable pub list_devices : ℕ → ℕ → Files → List Peer
list_devices now self files =
    select (λ d. is_available now files.registrations d && not (d.id == self)) files.devices

abbrev pub new_drop : ℕ → ℕ → ℕ → ℕ → ℕ → String → ℕ → String → Drop
new_drop id key now self recipient filename size public_key = record {
  id = id;
  sender_device_id = self;
  recipient_device_id = recipient;
  filename = filename;
  declared_size = size;
  bytes_uploaded = 0;
  storage_key = key;
  status = uploading;
  content_sha256 = none;
  sender_public_key = public_key;
  created_at = now;
  updated_at = now;
  expires_at = none;
}

-- `create_drop`, with the id and the storage key of the new row
unfoldable pub create_drop : Reading → ℕ → ℕ → ℕ → ℕ → ℕ → String → ℕ → String → Tx Files Drop
create_drop reading id key now self recipient filename size public_key = do
  raise_if (recipient == self) (http 400 "Cannot send a drop to yourself")
  max_size ← max_drop_size reading
  raise_if (ltb max_size size) (http 400 "declared_size exceeds the current max drop size")
  registrations ← gets (λ files. files.registrations)
  devices ← gets (λ files. files.devices)
  raise_if (not (exists_where (λ d. d.id == recipient && is_available now registrations d) devices))
      (http 404 "Recipient is not available for RustDrop")
  modify (λ files. record files {
    drops = new_drop id key now self recipient filename size public_key ∷ files.drops;
  })
  pure (new_drop id key now self recipient filename size public_key)

-- `_fetch_drop`
unfoldable pub fetch_drop : ℕ → Tx Files Drop
fetch_drop id files =
    found (find_where (λ d. d.id == id) files.drops) (http 404 "Drop not found") files

-- UPDATE filedrop_drops SET … WHERE id = …: the primary key leaves one row at most.
unfoldable pub update_drop : ℕ → (Drop → Drop) → List Drop → List Drop
update_drop id change [] = []
update_drop id change (d ∷ ds) =
    let rest = update_drop id change ds in if d.id == id then change d ∷ ds else d ∷ rest

abbrev pub finished : ℕ → ℕ → Option String → ℕ → Drop → Drop
finished now bytes digest ttl d = record d {
  status = complete;
  bytes_uploaded = bytes;
  content_sha256 = digest;
  expires_at = some (now + ttl);
  updated_at = now;
}

-- The UPDATE when the storage has the whole file.
unfoldable pub finish_upload : Reading → ℕ → ℕ → ℕ → Option String → Tx Files (Unit {0})
finish_upload reading now id bytes digest = do
  ttl ← get_ttl reading
  modify
      (λ files. record files { drops = update_drop id (finished now bytes digest ttl) files.drops })

-- `_mark_drop_failed`
unfoldable pub mark_drop_failed : ℕ → ℕ → Tx Files (Unit {0})
mark_drop_failed now id = modify (λ files. record files {
  drops = update_drop id (λ d. record d { status = failed; updated_at = now }) files.drops;
})

-- `_touch`, after a part that is not the last
unfoldable pub touch_upload : ℕ → ℕ → Tx Files (Unit {0})
touch_upload now id = modify (λ files. record files {
  drops = update_drop id (λ d. record d { updated_at = now }) files.drops;
})

-- `_renew_ttl`
unfoldable pub renew_ttl : Reading → ℕ → ℕ → Tx Files (Unit {0})
renew_ttl reading now id = do
  ttl ← get_ttl reading
  modify (λ files. record files {
    drops =
        update_where (λ d. d.id == id && is_complete d.status)
          (λ d. record d { expires_at = some (now + ttl); updated_at = now }) files.drops;
  })

-- The start of a download: no Range, or one from byte 0.
abbrev pub is_download_start : Reading → Option String → Bool
is_download_start reading none = true
is_download_start reading (some range) = reading.starts_at_zero range

-- `download_drop`, up to its call of the storage
unfoldable pub download_drop : Reading → ℕ → ℕ → ℕ → Option String → Tx Files Drop
download_drop reading now id self range = do
  drop ← fetch_drop id
  raise_if (not (drop.recipient_device_id == self)) (http 404 "Drop not found")
  raise_if (not (is_uploading drop.status || is_complete drop.status))
      (http 409 "Drop is not downloadable")
  if is_download_start reading range && is_complete drop.status
      then renew_ttl reading now id >> pure drop
      else pure drop

abbrev pub event_of : ℕ → Drop → TransferEvent
event_of now d = record {
  drop_id = d.id;
  sender_device_id = d.sender_device_id;
  recipient_device_id = d.recipient_device_id;
  bytes = d.bytes_uploaded;
  occurred_at = now;
}

-- The UPDATE of `complete_drop`, and the row that records the transfer.
unfoldable pub deliver : ℕ → ℕ → Drop → Tx Files Drop
deliver now id d = do
  modify (λ files. record files {
    drops = update_drop id (λ e. record e { status = delivered; updated_at = now }) files.drops;
    events = event_of now d ∷ files.events;
  })
  pure (record d { status = delivered; updated_at = now })

-- `complete_drop`
unfoldable pub complete_drop : ℕ → ℕ → ℕ → Tx Files Drop
complete_drop now id self = do
  drop ← fetch_drop id
  raise_if (not (drop.recipient_device_id == self)) (http 404 "Drop not found")
  if is_delivered drop.status then pure drop else (do
    raise_if (not (is_complete drop.status)) (http 409 "Drop cannot be marked delivered")
    deliver now id drop)

-- `decline_drop`, before it deletes the blob
unfoldable pub decline_drop : ℕ → ℕ → Tx Files Drop
decline_drop id self = do
  drop ← fetch_drop id
  raise_if (not (drop.recipient_device_id == self)) (http 404 "Drop not found")
  modify (λ files. record files { drops = select (λ d. not (d.id == id)) files.drops })
  pure drop

-- The WHERE of the sweep.
unfoldable pub is_expired : ℕ → ℕ → Drop → Bool
is_expired now stuck d =
    (elim d.expires_at [ none ↦ false | some t ↦ ltb t now ])
    || ((is_uploading d.status || is_failed d.status) && ltb (d.updated_at + stuck) now)

-- `_sweep_expired_drops`, one round; the blobs of the rows are deleted after it.
unfoldable pub sweep_expired_drops : Reading → ℕ → Tx Files (List Drop)
sweep_expired_drops reading now = do
  days ← stuck_days reading
  expired ← gets (λ files. select (is_expired now (days * 86400)) files.drops)
  modify (λ files. record files {
    drops = select (λ d. not (is_expired now (days * 86400) d)) files.drops;
  })
  pure expired

unfoldable pub insert_newest_drop : Drop → List Drop → List Drop
insert_newest_drop d [] = d ∷ []
insert_newest_drop d (e ∷ es) =
    let rest = insert_newest_drop d es in
    if leb e.created_at d.created_at then d ∷ e ∷ es else e ∷ rest

-- ORDER BY created_at DESC
unfoldable pub newest_drops : List Drop → List Drop
newest_drops [] = []
newest_drops (d ∷ ds) = insert_newest_drop d (newest_drops ds)

-- `list_drops`: the incoming and the outgoing ones that are not delivered
unfoldable pub list_drops : ℕ → Files → List Drop × List Drop
list_drops self files = (
  newest_drops
      (select (λ d. d.recipient_device_id == self && not (is_delivered d.status)) files.drops),
  newest_drops
      (select (λ d. d.sender_device_id == self && not (is_delivered d.status)) files.drops),
)
