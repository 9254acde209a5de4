-- ===== src/Store/View.antt =====
-- The status that the table of devices gives an id, and how the statements change it.
use rustdesk_managed_directo.Common.{
  ℕ, ◌≡◌, refl, Bool, true, false, Option, none, some, List, [], ◌∷◌, ◌==◌, arith, if◌then◌else◌,
  update_where, find_where,
}
use rustdesk_managed_directo.Store.{Status, Device}
use rustdesk_managed_directo.Store.Queries.{get_device}
use rustdesk_managed_directo.Store.Triggers.{same_status}

abbrev pub on_device {ℓ} : {A : Type ℓ} → (Device → A) → Option Device → Option A
on_device f none = none
on_device f (some d) = some (f d)

unfoldable pub status_in : List Device → ℕ → Option Status
status_in devices id = on_device (λ d. d.status) (get_device devices id)

-- What a statement may do to a row: it leaves the id alone.
abbrev pub KeepsId : (Device → Device) → Type 0
KeepsId f = (d : Device) → (f d).id ≡ d.id

pub get_device-update :
    (devices : List Device) (j k : ℕ) (f : Device → Device)
    → KeepsId f
    → get_device (update_where (λ d. d.id == j) f devices) k
      ≡ (if j == k then on_device f (get_device devices k) else get_device devices k)
unfolding get_device find_where update_where
get_device-update [] j k f h = ground arith
get_device-update (d ∷ devices) j k f h = ground (arith, h d, get_device-update devices j k f h)

-- A statement that sets no status.
pub status_in-update :
    (devices : List Device) (j k : ℕ) (f : Device → Device)
    → KeepsId f
    → ((d : Device) → (f d).status ≡ d.status)
    → status_in (update_where (λ d. d.id == j) f devices) k ≡ status_in devices k
unfolding status_in
status_in-update devices j k f h e =
    rw (get_device-update devices j k f h) (go (j == k) (get_device devices k))
  where
    go :
        (b : Bool) (o : Option Device)
        → on_device (λ d. d.status) (if b then on_device f o else o) ≡ on_device (λ d. d.status) o
    go true none = refl
    go true (some d) = rw e
    go false o = refl

abbrev pub set_some : Status → Option Status → Option Status
set_some to none = none
set_some to (some s) = some to

-- A statement that sets the status.
pub status_in-set :
    (devices : List Device) (j k : ℕ) (f : Device → Device) (to : Status)
    → KeepsId f
    → ((d : Device) → (f d).status ≡ to)
    → status_in (update_where (λ d. d.id == j) f devices) k
      ≡ (if j == k then set_some to (status_in devices k) else status_in devices k)
unfolding status_in
status_in-set devices j k f to h e =
    rw (get_device-update devices j k f h) (go (j == k) (get_device devices k))
  where
    go :
        (b : Bool) (o : Option Device)
        → on_device (λ d. d.status) (if b then on_device f o else o)
          ≡ (if b then set_some to (on_device (λ d. d.status) o) else on_device (λ d. d.status) o)
    go true none = refl
    go true (some d) = rw e
    go false o = refl

pub same_status-eq : (a b : Status) → same_status a b ≡ true → a ≡ b
same_status-eq a b h = ground arith

pub same_status_refl : (a : Status) → same_status a a ≡ true
same_status_refl a = ground arith

-- The row that `get_device` finds has the id.
pub id-get_device :
    (devices : List Device) (k : ℕ) {d : Device} → get_device devices k ≡ some d → d.id ≡ k
unfolding get_device find_where
id-get_device [] k h = cc
id-get_device (e ∷ devices) k {d} h = ground (arith, id-get_device devices k {d = d})

pub status_in-get_device :
    (devices : List Device) (k : ℕ) {d : Device}
    → get_device devices k ≡ some d
    → status_in devices k ≡ some d.status
unfolding status_in
status_in-get_device devices k h = rw h

pub status_in-insert :
    (d : Device) (devices : List Device) (k : ℕ)
    → status_in (d ∷ devices) k ≡ (if d.id == k then some d.status else status_in devices k)
unfolding status_in get_device find_where
status_in-insert d devices k = ground arith

pub status_in-none :
    (devices : List Device) (k : ℕ) → get_device devices k ≡ none → status_in devices k ≡ none
unfolding status_in
status_in-none devices k h = rw h
