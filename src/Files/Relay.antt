-- ===== src/Files/Relay.antt =====
-- rustdrop.py: the relay of an upload to the storage service. A body is the list of its chunks' sizes,
-- and what the storage answers to it is an argument.
use rustdesk_managed_directo.Common.{
  ℕ, String, ◌≡◌, ◌∙◌, ap, ◌+◌, ◌≤◌, min, Bool, true, false, not, Option, none, some, List, [], ◌∷◌,
  ◌==◌, arith, inl, inr, ltb, leb, if◌then◌else◌, Bool-cases, find_where,
}
use rustdesk_managed_directo.Http.{
  HttpError, http, internal_error, Tx, Reply, accepted, refused, raise, pure, raise_if, ◌>>=◌, ◌>>◌,
}
use rustdesk_managed_directo.Store.Queries.{found}
use rustdesk_managed_directo.Files.{Drop, Files, Reading, is_uploading}
use rustdesk_managed_directo.Files.Settings.{max_drop_size}
use rustdesk_managed_directo.Files.Drops.{fetch_drop, finish_upload, mark_drop_failed, touch_upload}

-- The stream of a body: what was relayed, and whether it ended without a 413.
pub record Relayed : Type 0 where
  pub bytes : ℕ
  pub whole : Bool

-- `_bounded_request_stream`, with the total so far: a chunk that exceeds the limit is not relayed.
unfoldable pub bounded_stream : ℕ → ℕ → List ℕ → Relayed
bounded_stream limit total [] = record { bytes = total; whole = true }
bounded_stream limit total (n ∷ ns) =
    let rest = bounded_stream limit (total + n) ns in
    if ltb limit (total + n) then record { bytes = total; whole = false } else rest

-- What the storage answers to an upload.
pub data StorageReply : Type 0 where
  unreachable mismatch gone rejected : StorageReply
  stored : ℕ → Bool → Option String → StorageReply

abbrev pub too_large : HttpError
too_large = http 413 "Upload exceeded its declared/allowed size"

-- The checks of `upload_drop`: the drop and the limit of its bytes.
unfoldable pub begin_upload : Reading → ℕ → ℕ → Tx Files (Drop × ℕ)
begin_upload reading id self = do
  drop ← fetch_drop id
  max_size ← max_drop_size reading
  raise_if (not (drop.sender_device_id == self)) (http 404 "Drop not found")
  raise_if (not (is_uploading drop.status)) (http 409 "Drop is not accepting an upload")
  pure (drop, min drop.declared_size max_size)

-- The single-shot path behind the relay, for a client without Upload-Offset.
unfoldable pub end_whole_upload : Reading → ℕ → ℕ → StorageReply → Tx Files (Reply ℕ)
end_whole_upload reading now id (stored bytes complete digest) = do
  finish_upload reading now id bytes digest
  drop ←
      (λ files. found (find_where (λ d. d.id == id) files.drops) (internal_error "TypeError") files)
  pure (accepted drop.bytes_uploaded)
end_whole_upload reading now id reply =
    mark_drop_failed now id >> pure (refused (http 502 "Upload to storage failed"))

-- The path for one part. Only an upload session that the storage has dropped is fatal.
unfoldable pub end_part_upload : Reading → ℕ → ℕ → StorageReply → Tx Files (Reply ℕ)
end_part_upload reading now id unreachable = raise (http 502 "Storage unreachable")
end_part_upload reading now id mismatch = raise (http 409 "offset mismatch")
end_part_upload reading now id rejected = raise (http 502 "Storage rejected the upload")
end_part_upload reading now id gone =
    mark_drop_failed now id >> pure (refused (http 410 "Upload session no longer exists"))
end_part_upload reading now id (stored offset true digest) =
    finish_upload reading now id offset digest >> pure (accepted offset)
end_part_upload reading now id (stored offset false digest) =
    touch_upload now id >> pure (accepted offset)

abbrev pub part_too_long : ℕ → Option ℕ → ℕ → Bool
part_too_long offset none limit = false
part_too_long offset (some length) limit = ltb limit (offset + length)

-- `upload_drop` with Upload-Offset, when nothing else runs between its transactions.
unfoldable pub upload_part :
    Reading → ℕ → ℕ → ℕ → ℕ → Option ℕ → List ℕ → (ℕ → StorageReply) → Tx Files (Reply ℕ)
upload_part reading now id self offset content_length body storage = do
  begun ← begin_upload reading id self
  raise_if (part_too_long offset content_length begun.1) too_large
  let relayed = bounded_stream begun.1 0 body
  if relayed.whole then end_part_upload reading now id (storage relayed.bytes) else raise too_large

-- `upload_drop` without Upload-Offset.
unfoldable pub upload_whole : Reading → ℕ → ℕ → ℕ → List ℕ → (ℕ → StorageReply) → Tx Files (Reply ℕ)
upload_whole reading now id self body storage = do
  begun ← begin_upload reading id self
  let relayed = bounded_stream begun.1 0 body
  if relayed.whole
      then end_whole_upload reading now id (storage relayed.bytes)
      else (mark_drop_failed now id >> pure (refused too_large))

unfoldable pub sum : List ℕ → ℕ
sum [] = 0
sum (n ∷ ns) = n + sum ns

-- Within the limit so far, the stream relays at most the limit, whatever the chunks, and the body ends
-- without a 413 exactly when it fits, and then all of it is relayed.
pub bounded_stream-sum :
    (limit total : ℕ) (body : List ℕ)
    → total ≤ limit
    → ((bounded_stream limit total body).bytes ≤ limit)
      × ((bounded_stream limit total body).whole ≡ leb (total + sum body) limit)
      × ((bounded_stream limit total body).whole ≡ true
          → (bounded_stream limit total body).bytes ≡ total + sum body)
unfolding bounded_stream sum
bounded_stream-sum limit total [] h = (h, ground arith, λ e. ground arith)
bounded_stream-sum limit total (n ∷ ns) h = elim (Bool-cases (ltb limit (total + n))) [
  | inl over ↦ rw over (h, ground (arith, over), λ e. cc e)
  | inr fits ↦
      let ih = bounded_stream-sum limit (total + n) ns (ground (arith, fits)) in
      let e : total + n + sum ns ≡ total + (n + sum ns) = omega arith in
      rw fits (ih.0, ih.1 ∙ ap (λ (k : ℕ). leb k limit) e, λ w. ih.2 w ∙ e)
]
