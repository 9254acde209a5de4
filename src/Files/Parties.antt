-- ===== src/Files/Parties.antt =====
-- Who may do what with a drop, and at which of its stages.
use rustdesk_managed_directo.Common.{
  ℕ, String, ◌≡◌, refl, Bool, true, ◌&&◌, ◌||◌, Option, some, ◌==◌, arith, inl, inr, Bool-cases,
  Option-cases, find_where, ◌⊎◌,
}
use rustdesk_managed_directo.Http.{http, HttpError, Tx, done, raised, ◌>>=◌}
use rustdesk_managed_directo.Files.{Drop, Files, Reading, is_uploading, is_complete, is_delivered}
use rustdesk_managed_directo.Files.Settings.{max_drop_size}
use rustdesk_managed_directo.Files.Drops.{fetch_drop, complete_drop, decline_drop, download_drop}
use rustdesk_managed_directo.Files.Relay.{begin_upload}
use rustdesk_managed_directo.Files.Delivered.{complete_drop-cases}

-- The row of the drop, of which something holds.
abbrev pub RowWith : (Drop → Bool) → ℕ → Files → Type 0
RowWith p id files = (d : Drop) × (find_where (λ e. e.id == id) files.drops ≡ some d) × (p d ≡ true)

unfoldable pub may_confirm : ℕ → Drop → Bool
may_confirm self d =
    d.recipient_device_id == self && (is_delivered d.status || is_complete d.status)

unfoldable pub may_download : ℕ → Drop → Bool
may_download self d =
    d.recipient_device_id == self && (is_uploading d.status || is_complete d.status)

unfoldable pub may_decline : ℕ → Drop → Bool
may_decline self d = d.recipient_device_id == self

unfoldable pub may_upload : ℕ → Drop → Bool
may_upload self d = d.sender_device_id == self && is_uploading d.status

-- A handler that raises, or whose drop is as it must be.
abbrev pub Checked : {A : Type 0} → Tx Files A → (Drop → Bool) → ℕ → Files → Type 0
Checked m p id files = ((e : HttpError) × (m files ≡ raised e)) ⊎ RowWith p id files

module _ (reading : Reading) (now id self : ℕ) (files : Files) where
  confirm-Checked : Checked (complete_drop now id self) (may_confirm self) id files
  unfolding may_confirm
  confirm-Checked = elim (complete_drop-cases now id self files) [
    | inl refused ↦ inl refused
    | inr c ↦ let o = c.own in let s = c.stage in inr (c.drop, c.row, ground (arith, o, s))
  ]

  decline-Checked : Checked (decline_drop id self) (may_decline self) id files
  unfolding decline_drop fetch_drop may_decline ◌>>=◌
  decline-Checked = elim (Option-cases (find_where (λ d. d.id == id) files.drops)) [
    | inl absent ↦ inl (http 404 "Drop not found", rw absent refl)
    | inr (d, row) ↦ elim (Bool-cases (d.recipient_device_id == self)) [
      | inl own ↦ inr (d, row, own)
      | inr foreign ↦ inl (http 404 "Drop not found", rw (row, foreign) refl)
    ]
  ]

  download-Checked :
      (range : Option String)
      → Checked (download_drop reading now id self range) (may_download self) id files
  unfolding download_drop fetch_drop may_download ◌>>=◌
  download-Checked range = elim (Option-cases (find_where (λ d. d.id == id) files.drops)) [
    | inl absent ↦ inl (http 404 "Drop not found", rw absent refl)
    | inr (d, row) ↦ elim (Bool-cases (d.recipient_device_id == self)) [
      | inr foreign ↦ inl (http 404 "Drop not found", rw (row, foreign) refl)
      | inl own ↦ elim (Bool-cases (is_uploading d.status || is_complete d.status)) [
        | inl stage ↦ inr (d, row, rw (own, stage) refl)
        | inr over ↦ inl (http 409 "Drop is not downloadable", rw (row, own, over) refl)
      ]
    ]
  ]

  upload-Checked :
      (max_size : ℕ)
      → max_drop_size reading files ≡ done max_size files
      → Checked (begin_upload reading id self) (may_upload self) id files
  unfolding begin_upload fetch_drop may_upload ◌>>=◌
  upload-Checked max_size setting = elim (Option-cases (find_where (λ d. d.id == id) files.drops)) [
    | inl absent ↦ inl (http 404 "Drop not found", rw absent refl)
    | inr (d, row) ↦ elim (Bool-cases (d.sender_device_id == self)) [
      | inr foreign ↦ inl (http 404 "Drop not found", rw (row, setting, foreign) refl)
      | inl own ↦ elim (Bool-cases (is_uploading d.status)) [
        | inl stage ↦ inr (d, row, rw (own, stage) refl)
        | inr over ↦
            inl (http 409 "Drop is not accepting an upload", rw (row, setting, own, over) refl)
      ]
    ]
  ]

  -- With a readable size limit each of these raises, or the drop is there and: only its recipient
  -- confirms it, once its upload is complete; only its recipient downloads it, before it is delivered;
  -- only its recipient declines it; only its sender uploads it, while it is uploading.
  pub drop-Checked :
      (range : Option String) (max_size : ℕ)
      → max_drop_size reading files ≡ done max_size files
      → Checked (complete_drop now id self) (may_confirm self) id files
        × Checked (download_drop reading now id self range) (may_download self) id files
        × Checked (decline_drop id self) (may_decline self) id files
        × Checked (begin_upload reading id self) (may_upload self) id files
  drop-Checked range max_size setting =
      (confirm-Checked, download-Checked range, decline-Checked, upload-Checked max_size setting)
