-- ===== src/Store/Keyed.antt =====
-- The invariant of managed_devices: every row is the one that its id finds.
use rustdesk_managed_directo.Common.{
  ℕ, ◌≡◌, refl, Bool, ◌&&◌, none, some, List, [], ◌∷◌, ◌==◌, ==_iff, arith, inl, inr, if◌then◌else◌,
  All, All-mono, All-update_where, update_where, find_where, select, Bool-cases,
}
use rustdesk_managed_directo.Store.{Device}
use rustdesk_managed_directo.Store.Queries.{get_device}
use rustdesk_managed_directo.Store.View.{KeepsId, get_device-update}

abbrev pub FindsItself : List Device → Device → Type 0
FindsItself devices d = get_device devices d.id ≡ some d

abbrev pub Keyed : List Device → Type 0
Keyed devices = All (FindsItself devices) devices

pub Keyed-update :
    (devices : List Device) (j : ℕ) (f : Device → Device)
    → KeepsId f
    → Keyed devices
    → Keyed (update_where (λ d. d.id == j) f devices)
Keyed-update devices j f keeps =
    All-update_where _ f
      (λ d h e. ground (arith, keeps d, get_device-update devices j d.id f keeps))
      (λ d h e. ground (arith, get_device-update devices j d.id f keeps)) devices

-- An UPDATE whose WHERE asks for more than the id.
pub update_where-and {ℓ} :
    {A : Type ℓ} (p q : A → Bool) (f : A → A) (xs : List A)
    → update_where (λ x. p x && q x) f xs ≡ update_where p (λ x. if q x then f x else x) xs
unfolding update_where
update_where-and p q f [] = refl
update_where-and p q f (x ∷ xs) = ground (arith, update_where-and p q f xs)

pub Keyed-insert :
    (devices : List Device) (d : Device)
    → get_device devices d.id ≡ none
    → Keyed devices
    → Keyed (d ∷ devices)
unfolding get_device find_where
Keyed-insert devices d fresh keyed =
    (ground arith, All-mono (λ e h. ground (arith, (==_iff d.id e.id).0)) devices keyed)

pub All-select {ℓ κ} :
    {A : Type ℓ} (P : A → Type κ) (p : A → Bool) (xs : List A) → All P xs → All P (select p xs)
unfolding select
All-select P p [] a = tt
All-select P p (x ∷ xs) a = elim (Bool-cases (p x)) [
  | inl e ↦ rw e (a.0, All-select P p xs a.1)
  | inr e ↦ rw e (All-select P p xs a.1)
]
