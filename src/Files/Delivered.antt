-- ===== src/Files/Delivered.antt =====
-- The confirmation of a drop: what a second one does, alone and after an upload that ends late.
use rustdesk_managed_directo.Common.{
  ℕ, suc, String, ◌≡◌, refl, true, false, ◌||◌, Option, some, List, [], ◌∷◌, ◌==◌, arith, inl, inr,
  Bool-cases, find_where, length, Option-cases, ◌⊎◌,
}
use rustdesk_managed_directo.Http.{http, HttpError, done, raised, ◌>>=◌}
use rustdesk_managed_directo.Http.Keeps.{Ends, Returns}
use rustdesk_managed_directo.Files.{delivered, Drop, Files, Reading, is_complete, is_delivered}
use rustdesk_managed_directo.Files.Settings.{setting_of, read_hours, get_ttl}
use rustdesk_managed_directo.Files.Drops.{
  fetch_drop, update_drop, finished, finish_upload, event_of, deliver, complete_drop,
}
use rustdesk_managed_directo.Files.Relay.{stored, end_part_upload}

find-update_drop :
    (id : ℕ) (f : Drop → Drop) (drops : List Drop) (d : Drop)
    → (f d).id ≡ d.id
    → find_where (λ e. e.id == id) drops ≡ some d
    → find_where (λ e. e.id == id) (update_drop id f drops) ≡ some (f d)
unfolding find_where update_drop
find-update_drop id f [] d same h = cc h
find-update_drop id f (e ∷ es) d same h = ground (arith, same, find-update_drop id f es d)

module _ (id self : ℕ) (d : Drop) (own : (d.recipient_device_id == self) ≡ true) where
  -- A drop that is delivered already.
  complete_drop-again :
      (now : ℕ) (files : Files)
      → find_where (λ e. e.id == id) files.drops ≡ some d
      → is_delivered d.status ≡ true
      → complete_drop now id self files ≡ done d files
  unfolding complete_drop fetch_drop ◌>>=◌
  complete_drop-again now files e over = rw (e, own, over) refl

  -- A drop that can be delivered.
  complete_drop-first :
      (now : ℕ) (files : Files)
      → find_where (λ e. e.id == id) files.drops ≡ some d
      → is_complete d.status ≡ true
      → complete_drop now id self files
        ≡ done
            (record d { status = delivered; updated_at = now })
            (record files {
              drops =
                  update_drop id
                    (λ e. record e { status = delivered; updated_at = now })
                    files.drops;
              events = event_of now d ∷ files.events;
            })
  unfolding complete_drop fetch_drop deliver ◌>>=◌
  complete_drop-first now files e ready =
      let fresh : is_delivered d.status ≡ false = ground (arith, ready) in
      rw (e, own, fresh, ready) refl

-- What a drop must be for its confirmation to return.
pub record Confirmable (id self : ℕ) (files : Files) : Type 0 where
  pub drop : Drop
  pub row : find_where (λ d. d.id == id) files.drops ≡ some drop
  pub own : (drop.recipient_device_id == self) ≡ true
  pub stage : (is_delivered drop.status || is_complete drop.status) ≡ true

pub complete_drop-cases :
    (now id self : ℕ) (files : Files)
    → ((e : HttpError) × (complete_drop now id self files ≡ raised e)) ⊎ Confirmable id self files
unfolding complete_drop fetch_drop ◌>>=◌
complete_drop-cases now id self files =
    elim (Option-cases (find_where (λ d. d.id == id) files.drops)) [
      | inl none_found ↦ inl (http 404 "Drop not found", rw none_found refl)
      | inr (d, row) ↦ elim (Bool-cases (d.recipient_device_id == self)) [
        | inr foreign ↦ inl (http 404 "Drop not found", rw (row, foreign) refl)
        | inl own ↦ elim (Bool-cases (is_delivered d.status)) [
          | inl over ↦ inr (record { drop = d; row = row; own = own; stage = ground (arith, over) })
          | inr pending ↦ elim (Bool-cases (is_complete d.status)) [
            | inl ready ↦
                inr (record { drop = d; row = row; own = own; stage = ground (arith, ready) })
            | inr early ↦
                inl (http 409 "Drop cannot be marked delivered", rw (row, own, pending, early) refl)
          ]
        ]
      ]
    ]

complete_drop-repeats :
    (now later id self : ℕ) (files : Files)
    → Confirmable id self files
    → Ends
        (λ _ t. Returns (λ _ u. u ≡ t) (complete_drop later id self t))
        (complete_drop now id self files)
complete_drop-repeats now later id self files c = elim (Bool-cases (is_delivered c.drop.status)) [
  | inl over ↦
      rw
        (
          complete_drop-again id self c.drop c.own now files c.row over,
          complete_drop-again id self c.drop c.own later files c.row over,
        )
        refl
  | inr pending ↦
      let ready : is_complete c.drop.status ≡ true =
        (let s = c.stage in ground (arith, s, pending)) in
      let confirmed = λ (x : Drop). record x { status = delivered; updated_at = now } in
      rw
        (
          complete_drop-first id self c.drop c.own now files c.row ready,
          complete_drop-again id self (confirmed c.drop) c.own later
              (record files {
                drops = update_drop id confirmed files.drops;
                events = event_of now c.drop ∷ files.events;
              })
              (find-update_drop id confirmed files.drops c.drop refl c.row) refl,
        )
        refl
]

-- A confirmation that returns can be repeated: it returns again and changes nothing, so that the
-- transfer is recorded once.
pub complete_drop-twice :
    (now later id self : ℕ) (files : Files)
    → Ends
        (λ _ t. Returns (λ _ u. u ≡ t) (complete_drop later id self t))
        (complete_drop now id self files)
complete_drop-twice now later id self files = elim (complete_drop-cases now id self files) [
  | inl (e, refused) ↦ rw refused tt
  | inr c ↦ complete_drop-repeats now later id self files c
]

module _ (reading : Reading) (id self : ℕ) (d : Drop)
    (own : (d.recipient_device_id == self) ≡ true) where
  -- When the drop is confirmed while an answer of the storage to an earlier request of its upload is on
  -- the way, that answer takes the drop back to complete, and the next confirmation records the
  -- transfer a second time.
  pub complete_drop-recounts :
      (now late last bytes ttl : ℕ) (digest : Option String) (files : Files)
      → find_where (λ e. e.id == id) files.drops ≡ some d
      → is_complete d.status ≡ true
      → read_hours reading (setting_of "rustdrop.default_ttl_hours" files.settings) ≡ some ttl
      → Returns
          (λ _ t. length t.events ≡ suc (suc (length files.events)))
          ((complete_drop now id self >>= λ _.
              end_part_upload reading late id (stored bytes true digest) >>= λ _.
              complete_drop last id self)
            files)
  unfolding end_part_upload finish_upload get_ttl ◌>>=◌
  complete_drop-recounts now late last bytes ttl digest files e ready setting =
      let confirmed = λ (x : Drop). record x { status = delivered; updated_at = now } in
      let e1 = find-update_drop id confirmed files.drops d refl e in
      let e2 =
        find-update_drop id (finished late bytes digest ttl) (update_drop id confirmed files.drops)
          (confirmed d) refl e1 in
      rw
        (
          complete_drop-first id self d own now files e ready,
          setting,
          complete_drop-first id self (finished late bytes digest ttl (confirmed d)) own last
              (record files {
                drops =
                    update_drop id (finished late bytes digest ttl)
                      (update_drop id confirmed files.drops);
                events = event_of now d ∷ files.events;
              })
              e2 refl,
        )
        refl
