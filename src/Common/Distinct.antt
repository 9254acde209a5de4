-- ===== src/Common/Distinct.antt =====
-- Tables with a primary key, and what an UPDATE leaves of the rows that a query finds.
use Prim.Native.Nat.{ℕ}
use mathlib.Core.Path.{◌≡◌, refl}
use mathlib.Core.Logic.{inl, inr}
use mathlib.Core.Bool.{Bool, true, false}
use mathlib.Core.Option.{some}
use mathlib.Core.List.{List, [], ◌∷◌}
use native.Mathlib.Omega.{arith}
use rustdesk_managed_directo.Common.Tests.{◌==◌, Bool-cases}
use rustdesk_managed_directo.Common.Tables.{
  All, All-mono, All-update_where, All-find_where, update_where, find_where, exists_where,
}

-- No two rows have the same key.
abbrev pub Distinct {ℓ} : {A : Type ℓ} → (A → ℕ) → List A → Type 0
Distinct key [] = Unit
Distinct key (x ∷ xs) = All (λ y. (key y == key x) ≡ false) xs × Distinct key xs

module _ {A : Type 0} where
  pub Distinct-update_where :
      (key : A → ℕ) (p : A → Bool) (f : A → A)
      → ((x : A) → p x ≡ true → key (f x) ≡ key x)
      → (xs : List A) → Distinct key xs
      → Distinct key (update_where p f xs)
  unfolding update_where
  Distinct-update_where key p f keeps [] d = tt
  Distinct-update_where key p f keeps (x ∷ xs) d = (
    elim (Bool-cases (p x)) [
      | inl e ↦
          rw (e, keeps x e) (All-update_where p f (λ y h k. rw (keeps y k) h) (λ y h k. h) xs d.0)
      | inr e ↦ rw e (All-update_where p f (λ y h k. rw (keeps y k) h) (λ y h k. h) xs d.0)
    ],
    Distinct-update_where key p f keeps xs d.1,
  )

  -- Where no row passes a test, it fails on each.
  pub exists_where-none :
      (p : A → Bool) (xs : List A) → exists_where p xs ≡ false → All (λ x. p x ≡ false) xs
  unfolding exists_where
  exists_where-none p [] h = tt
  exists_where-none p (x ∷ xs) h = (ground (arith, h), exists_where-none p xs (ground (arith, h)))

  -- The row that a query finds is the only one with its key.
  pub Distinct-find_where :
      (key : A → ℕ) (p : A → Bool) (xs : List A) {x : A}
      → Distinct key xs
      → find_where p xs ≡ some x
      → All (λ y. (key y == key x) ≡ true → y ≡ x) xs
  unfolding find_where
  Distinct-find_where key p [] d h = tt
  Distinct-find_where key p (y ∷ ys) {x} d h = elim (Bool-cases (p y)) [
    | inl e ↦
        let same : y ≡ x = (let k : some y ≡ some x = (rw e at h) in cc k) in
        (λ k. same, All-mono (λ z off k. other z x same off k) ys d.0)
    | inr e ↦
        let rest : find_where p ys ≡ some x = (rw e at h) in
        let off = All-find_where (λ z. (key z == key y) ≡ false) p ys d.0 rest in
        (λ k. absurd (apart x off k), Distinct-find_where key p ys d.1 rest)
  ]
    where
      other : (z w : A) → y ≡ w → (key z == key y) ≡ false → (key z == key w) ≡ true → z ≡ w
      other z w same off k = let t : (key z == key y) ≡ true = (rw same k) in cc (off, t)

      apart : (w : A) → (key w == key y) ≡ false → (key y == key w) ≡ true → ⊥
      apart w off k = ground (arith, off, k)

  -- A row that passes and stays as it is, or passes after the update.
  pub exists_where-survives :
      (r q p : A → Bool) (f : A → A) (xs : List A)
      → All (λ x. r x ≡ true → (p x ≡ true → q (f x) ≡ true) × (p x ≡ false → q x ≡ true)) xs
      → exists_where r xs ≡ true
      → exists_where q (update_where p f xs) ≡ true
  unfolding exists_where update_where
  exists_where-survives r q p f [] a h = cc h
  exists_where-survives r q p f (x ∷ xs) a h = elim (Bool-cases (r x)) [
    | inl e ↦ ground (arith, (a.0 e).0, (a.0 e).1)
    | inr e ↦ ground (arith, e, h, exists_where-survives r q p f xs a.1)
  ]

  -- The row that an UPDATE finds passes after it.
  pub exists_where-updated :
      (q p : A → Bool) (f : A → A) (xs : List A) {x : A}
      → find_where p xs ≡ some x
      → q (f x) ≡ true
      → exists_where q (update_where p f xs) ≡ true
  unfolding exists_where update_where find_where
  exists_where-updated q p f [] h k = cc h
  exists_where-updated q p f (y ∷ ys) {x} h k = elim (Bool-cases (p y)) [
    | inl e ↦
        let same : y ≡ x = (let l : some y ≡ some x = (rw e at h) in cc l) in rw (e, same, k) refl
    | inr e ↦ let ih = exists_where-updated q p f ys (rw e at h) k in ground (arith, e, ih)
  ]
