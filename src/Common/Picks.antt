-- ===== src/Common/Picks.antt =====
-- Which rows the queries of Tables find.
use Prim.Native.Nat.{ℕ}
use mathlib.Core.Path.{◌≡◌, refl, ap, ◌∙◌}
use mathlib.Core.Logic.{inl, inr}
use mathlib.Core.Bool.{Bool, true, false, ◌||◌}
use mathlib.Core.List.{List, [], ◌∷◌}
use native.Mathlib.Omega.{arith}
use rustdesk_managed_directo.Common.Tests.{Bool-cases}
use rustdesk_managed_directo.Common.Tables.{
  All, All-mono, update_where, select, exists_where, insert_by, order_by,
}

module _ {ℓ} {A : Type ℓ} where
  pub select-none : (p : A → Bool) (xs : List A) → All (λ x. p x ≡ false) xs → select p xs ≡ []
  unfolding select
  select-none p [] h = refl
  select-none p (x ∷ xs) h = rw (h.0, select-none p xs h.1) refl

  pub All-select {κ} :
      (P : A → Type κ) (p : A → Bool) (xs : List A) → All P xs → All P (select p xs)
  unfolding select
  All-select P p [] h = tt
  All-select P p (x ∷ xs) h = elim (Bool-cases (p x)) [
    | inl e ↦ rw e (h.0, All-select P p xs h.1)
    | inr e ↦ rw e (All-select P p xs h.1)
  ]

  -- Every row that is selected passes the test.
  pub select-All : (p : A → Bool) (xs : List A) → All (λ x. p x ≡ true) (select p xs)
  unfolding select
  select-All p [] = tt
  select-All p (x ∷ xs) = elim (Bool-cases (p x)) [
    | inl e ↦ rw e (e, select-All p xs)
    | inr e ↦ rw e (select-All p xs)
  ]

  pub exists_where-select :
      (q k : A → Bool) (xs : List A)
      → exists_where q xs ≡ false
      → exists_where q (select k xs) ≡ false
  unfolding select exists_where
  exists_where-select q k [] h = refl
  exists_where-select q k (x ∷ xs) h = ground (arith, exists_where-select q k xs)

  -- A selection that keeps every row that passes a test does not change whether one does.
  pub exists_where-kept :
      (q k : A → Bool)
      → ((x : A) → q x ≡ true → k x ≡ true)
      → (xs : List A) → exists_where q (select k xs) ≡ exists_where q xs
  unfolding select exists_where
  exists_where-kept q k h [] = refl
  exists_where-kept q k h (x ∷ xs) = ground (arith, h x, exists_where-kept q k h xs)

  exists_where-insert_by :
      (q : A → Bool) (key : A → ℕ) (x : A) (xs : List A)
      → exists_where q (insert_by key x xs) ≡ (q x || exists_where q xs)
  unfolding exists_where insert_by
  exists_where-insert_by q key x [] = refl
  exists_where-insert_by q key x (y ∷ ys) = ground (arith, exists_where-insert_by q key x ys)

  pub exists_where-order_by :
      (q : A → Bool) (key : A → ℕ) (xs : List A)
      → exists_where q (order_by key xs) ≡ exists_where q xs
  unfolding exists_where order_by
  exists_where-order_by q key [] = refl
  exists_where-order_by q key (x ∷ xs) =
      exists_where-insert_by q key x (order_by key xs)
      ∙ ap (λ b. q x || b) (exists_where-order_by q key xs)

  -- A row that passes the test and a second one is found by the second among the selected.
  pub select-exists :
      (p : A → Bool) (q : A → A → Bool)
      → ((x : A) → q x x ≡ true)
      → (xs : List A) → All (λ x. p x ≡ true → exists_where (q x) (select p xs) ≡ true) xs
  unfolding select exists_where
  select-exists p q h [] = tt
  select-exists p q h (x ∷ xs) = (
    λ e. ground (arith, h x, e),
    All-mono (λ y k e. ground (arith, k e)) xs (select-exists p q h xs),
  )

  -- Two tests that agree on the rows select the same ones.
  pub select-ext :
      (p q : A → Bool) (xs : List A) → All (λ x. p x ≡ q x) xs → select p xs ≡ select q xs
  unfolding select
  select-ext p q [] h = refl
  select-ext p q (x ∷ xs) h = rw (h.0, select-ext p q xs h.1) refl

  -- A selection from the kept rows, when the test agrees there and fails elsewhere.
  pub select-kept :
      (p q k : A → Bool) (xs : List A)
      → All (λ x. (k x ≡ true → q x ≡ p x) × (k x ≡ false → p x ≡ false)) xs
      → select q (select k xs) ≡ select p xs
  unfolding select
  select-kept p q k [] h = refl
  select-kept p q k (x ∷ xs) h = elim (Bool-cases (k x)) [
    | inl e ↦ rw (e, select, h.0.0 e, select-kept p q k xs h.1) refl
    | inr e ↦ rw (e, h.0.1 e) (select-kept p q k xs h.1)
  ]

  -- An update changes no test that it keeps on the rows it hits.
  pub exists_where-update_where :
      (q p : A → Bool) (f : A → A)
      → ((x : A) → p x ≡ true → q (f x) ≡ q x)
      → (xs : List A) → exists_where q (update_where p f xs) ≡ exists_where q xs
  unfolding exists_where update_where
  exists_where-update_where q p f h [] = refl
  exists_where-update_where q p f h (x ∷ xs) =
      ground (arith, h x, exists_where-update_where q p f h xs)

  -- An update after which no hit row passes, when only hit rows passed, leaves none that does.
  pub exists_where-emptied :
      (q p : A → Bool) (f : A → A)
      → ((x : A) → p x ≡ true → q (f x) ≡ false)
      → ((x : A) → p x ≡ false → q x ≡ false)
      → (xs : List A) → exists_where q (update_where p f xs) ≡ false
  unfolding exists_where update_where
  exists_where-emptied q p f hit miss [] = refl
  exists_where-emptied q p f hit miss (x ∷ xs) =
      ground (arith, hit x, miss x, exists_where-emptied q p f hit miss xs)

  -- An update that makes no row pass leaves none where there was none.
  pub exists_where-less :
      (q p : A → Bool) (f : A → A)
      → ((x : A) → p x ≡ true → q (f x) ≡ false)
      → (xs : List A) → exists_where q xs ≡ false
      → exists_where q (update_where p f xs) ≡ false
  unfolding exists_where update_where
  exists_where-less q p f hit [] h = refl
  exists_where-less q p f hit (x ∷ xs) h = ground (arith, hit x, exists_where-less q p f hit xs)

  -- Where no row passes the weaker test, none passes the stronger.
  pub exists_where-stronger :
      (q p : A → Bool)
      → ((x : A) → q x ≡ true → p x ≡ true)
      → (xs : List A) → exists_where p xs ≡ false
      → exists_where q xs ≡ false
  unfolding exists_where
  exists_where-stronger q p h [] e = refl
  exists_where-stronger q p h (x ∷ xs) e = ground (arith, h x, exists_where-stronger q p h xs)

  -- What holds of the rows that pass holds of those selected.
  pub select-when {κ} :
      (P : A → Type κ) (p : A → Bool) (xs : List A)
      → All (λ x. p x ≡ true → P x) xs
      → All P (select p xs)
  unfolding select
  select-when P p [] h = tt
  select-when P p (x ∷ xs) h = elim (Bool-cases (p x)) [
    | inl e ↦ rw e (h.0 e, select-when P p xs h.1)
    | inr e ↦ rw e (select-when P p xs h.1)
  ]

  pub All-zip {κ μ ν} :
      (P : A → Type κ) (Q : A → Type μ) (R : A → Type ν)
      → ((x : A) → P x → Q x → R x)
      → (xs : List A) → All P xs
      → All Q xs
      → All R xs
  All-zip P Q R h [] a b = tt
  All-zip P Q R h (x ∷ xs) a b = (h x a.0 b.0, All-zip P Q R h xs a.1 b.1)

  -- A row that passes a test, and what holds of all rows.
  pub exists_where-All {κ} :
      (P : A → Type κ) (p : A → Bool) (xs : List A)
      → exists_where p xs ≡ true
      → All P xs
      → (x : A) × (p x ≡ true) × P x
  unfolding exists_where
  exists_where-All P p [] e h = cc e
  exists_where-All P p (x ∷ xs) e h = elim (Bool-cases (p x)) [
    | inl f ↦ (x, f, h.0)
    | inr f ↦ exists_where-All P p xs (ground (arith, e, f)) h.1
  ]

  -- Tests that agree find the same.
  pub exists_where-ext :
      (p q : A → Bool)
      → ((x : A) → p x ≡ q x)
      → (xs : List A) → exists_where p xs ≡ exists_where q xs
  unfolding exists_where
  exists_where-ext p q h [] = refl
  exists_where-ext p q h (x ∷ xs) = rw (exists_where, h x, exists_where-ext p q h xs) refl
