-- ===== src/Common/Members.antt =====
-- A row that a query finds is a row of the table.
use mathlib.Core.List.{Mem, mem-cons_self, mem-cons_of_mem}
use rustdesk_managed_directo.Common.{
  ◌≡◌, subst, Bool, some, List, [], ◌∷◌, inl, inr, Bool-cases, find_where,
}

pub find_where-Mem {ℓ} :
    {A : Type ℓ} (p : A → Bool) (xs : List A) {x : A} → find_where p xs ≡ some x → Mem x xs
unfolding find_where
find_where-Mem p [] h = cc h
find_where-Mem p (y ∷ ys) {x} h = elim (Bool-cases (p y)) [
  | inl e ↦
      let k : some y ≡ some x = (rw e at h) in
      let same : y ≡ x = cc k in subst (λ z. Mem z (y ∷ ys)) same mem-cons_self
  | inr e ↦ mem-cons_of_mem y (find_where-Mem p ys (rw e at h))
]
