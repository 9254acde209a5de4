-- ===== src/Common/Tables.antt =====
-- A table is the list of its rows: the statements of SQL on one, and predicates on its rows.
use Prim.Native.Nat.{ℕ, suc}
use mathlib.Core.Path.{◌≡◌}
use mathlib.Core.Logic.{inl, inr}
use mathlib.Core.Bool.{Bool, true, false, ◌||◌}
use mathlib.Core.Option.{Option, none, some}
use mathlib.Core.List.{List, [], ◌∷◌}
use native.Mathlib.Omega.{arith}
use rustdesk_managed_directo.Common.Tests.{if◌then◌else◌, ltb, leb, Bool-cases}

abbrev pub length {ℓ} : {A : Type ℓ} → List A → ℕ
length [] = 0
length (x ∷ xs) = suc (length xs)

abbrev pub All {ℓ κ} : {A : Type ℓ} → (A → Type κ) → List A → Type κ
All P [] = Unit
All P (x ∷ xs) = P x × All P xs

unfoldable pub map {ℓ κ} : {A : Type ℓ} {B : Type κ} → (A → B) → List A → List B
map f [] = []
map f (x ∷ xs) = f x ∷ map f xs

module _ {ℓ} {A : Type ℓ} where
  -- UPDATE … SET … WHERE …
  unfoldable pub update_where : (A → Bool) → (A → A) → List A → List A
  update_where p f [] = []
  update_where p f (x ∷ xs) = (if p x then f x else x) ∷ update_where p f xs

  -- SELECT … WHERE …
  unfoldable pub select : (A → Bool) → List A → List A
  select p [] = []
  select p (x ∷ xs) = let rest = select p xs in if p x then x ∷ rest else rest

  -- SELECT … WHERE … LIMIT 1
  unfoldable pub find_where : (A → Bool) → List A → Option A
  find_where p [] = none
  find_where p (x ∷ xs) = let rest = find_where p xs in if p x then some x else rest

  -- SELECT … WHERE … ORDER BY key DESC LIMIT 1
  unfoldable pub latest_where : (A → ℕ) → (A → Bool) → List A → Option A
  latest_where key p [] = none
  latest_where key p (x ∷ xs) = elim (latest_where key p xs) [
    | none ↦ if p x then some x else none
    | some y ↦ if p x then (if ltb (key x) (key y) then some y else some x) else some y
  ]

  -- SELECT 1 … WHERE … LIMIT 1
  unfoldable pub exists_where : (A → Bool) → List A → Bool
  exists_where p [] = false
  exists_where p (x ∷ xs) = p x || exists_where p xs

  unfoldable pub insert_by : (A → ℕ) → A → List A → List A
  insert_by key x [] = x ∷ []
  insert_by key x (y ∷ ys) =
      let rest = insert_by key x ys in if leb (key x) (key y) then x ∷ y ∷ ys else y ∷ rest

  -- ORDER BY key ASC
  unfoldable pub order_by : (A → ℕ) → List A → List A
  order_by key [] = []
  order_by key (x ∷ xs) = insert_by key x (order_by key xs)

  -- SELECT count(*) … WHERE …
  unfoldable pub count_where : (A → Bool) → List A → ℕ
  count_where p [] = 0
  count_where p (x ∷ xs) = let rest = count_where p xs in if p x then suc rest else rest

module _ {ℓ κ} {A : Type ℓ} {P Q : A → Type κ} where
  pub All-mono : ((x : A) → P x → Q x) → (xs : List A) → All P xs → All Q xs
  All-mono h [] a = tt
  All-mono h (x ∷ xs) a = (h x a.0, All-mono h xs a.1)

  pub All-update_where :
      (p : A → Bool) (f : A → A)
      → ((x : A) → P x → p x ≡ true → Q (f x))
      → ((x : A) → P x → p x ≡ false → Q x)
      → (xs : List A) → All P xs
      → All Q (update_where p f xs)
  unfolding update_where
  All-update_where p f hit miss [] a = tt
  All-update_where p f hit miss (x ∷ xs) a = (
    elim (Bool-cases (p x)) [ inl e ↦ rw e (hit x a.0 e) | inr e ↦ rw e (miss x a.0 e) ],
    All-update_where p f hit miss xs a.1,
  )

module _ {ℓ κ} {A : Type ℓ} (P : A → Type κ) where
  pub All-intro : ((x : A) → P x) → (xs : List A) → All P xs
  All-intro h [] = tt
  All-intro h (x ∷ xs) = (h x, All-intro h xs)

  pub All-find_where :
      (p : A → Bool) (xs : List A) {x : A} → All P xs → find_where p xs ≡ some x → P x
  unfolding find_where
  All-find_where p [] a h = cc
  All-find_where p (y ∷ ys) {x} a h = elim (Bool-cases (p y)) [
    | inl e ↦ let e' : y ≡ x = (let k : some y ≡ some x = (rw e at h) in cc k) in rw (← e') a.0
    | inr e ↦ All-find_where p ys a.1 (rw e at h)
  ]

module _ {ℓ} {A : Type ℓ} where
  pub find_where_sound :
      (p : A → Bool) (xs : List A) {x : A} → find_where p xs ≡ some x → p x ≡ true
  unfolding find_where
  find_where_sound p [] h = cc
  find_where_sound p (y ∷ ys) {x} h = elim (Bool-cases (p y)) [
    | inl e ↦ let e' : y ≡ x = (let k : some y ≡ some x = (rw e at h) in cc k) in rw (← e') e
    | inr e ↦ find_where_sound p ys (rw e at h)
  ]

  pub find_where_complete :
      (p : A → Bool) (xs : List A) → find_where p xs ≡ none → All (λ x. p x ≡ false) xs
  unfolding find_where
  find_where_complete p [] h = tt
  find_where_complete p (y ∷ ys) h = elim (Bool-cases (p y)) [
    | inl e ↦ let k : some y ≡ none = (rw e at h) in cc k
    | inr e ↦ (e, find_where_complete p ys (rw e at h))
  ]

  pub latest_where_sound :
      (key : A → ℕ) (p : A → Bool) (xs : List A) {x : A}
      → latest_where key p xs ≡ some x
      → p x ≡ true
  unfolding latest_where
  latest_where_sound key p [] h = cc
  latest_where_sound key p (y ∷ ys) {x} h = ground (arith, latest_where_sound key p ys {x = x})

  pub latest_where_complete :
      (key : A → ℕ) (p : A → Bool) (xs : List A)
      → latest_where key p xs ≡ none
      → All (λ x. p x ≡ false) xs
  unfolding latest_where
  latest_where_complete key p [] h = tt
  latest_where_complete key p (y ∷ ys) h =
      (ground arith, latest_where_complete key p ys (ground arith))
