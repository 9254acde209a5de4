-- ===== src/Http/Keeps.antt =====
-- Hoare triples of transactions, one rule for each way to build one. A transaction that raises is
-- rolled back, so a triple speaks of its normal end alone.
use rustdesk_managed_directo.Common.{◌≡◌, refl, Bool, true, false, if◌then◌else◌}
use rustdesk_managed_directo.Http.{
  HttpError, Reply, Outcome, done, raised, Tx, pure, raise, gets, modify, continue, ◌>>=◌, raise_if,
  commit, refused,
}

abbrev pub Ends : {S A : Type 0} → (A → S → Type 0) → Outcome S A → Type 0
Ends Q (done a s) = Q a s
Ends Q (raised e) = Unit

-- The transaction ends normally, with `Q`.
abbrev pub Returns : {S A : Type 0} → (A → S → Type 0) → Outcome S A → Type 0
Returns Q (done a s) = Q a s
Returns Q (raised e) = ⊥

-- From a state with `P`, a normal end has `Q`.
pub record Hoare {S A : Type 0} (P : S → Type 0) (m : Tx S A) (Q : A → S → Type 0) : Type 0 where
  pub at : (s : S) → P s → Ends Q (m s)

-- `P` is an invariant of the transaction.
abbrev pub Keeps : {S A : Type 0} → (S → Type 0) → Tx S A → Type 0
Keeps P m = Hoare P m (λ _ s. P s)

raise_if-Ends :
    {S : Type 0} (P : S → Type 0) (b : Bool) (e : HttpError) (s : S)
    → P s
    → Ends (λ _ t. P t) (raise_if b e s)
unfolding raise_if
raise_if-Ends P true e s h = tt
raise_if-Ends P false e s h = h

raise_if-tells :
    {S : Type 0} (P : S → Type 0) (b : Bool) (e : HttpError) (s : S)
    → P s
    → Ends (λ _ t. P t × (b ≡ false)) (raise_if b e s)
unfolding raise_if
raise_if-tells P true e s h = tt
raise_if-tells P false e s h = (h, refl)

module _ {S : Type 0} {P : S → Type 0} where
  pub Keeps-pure : {A : Type 0} (a : A) → Keeps P (pure {S = S} a)
  unfolding pure
  Keeps-pure a = record { at = λ s h. h }

  pub Keeps-raise : {A : Type 0} (e : HttpError) → Keeps P (raise {S = S} {A = A} e)
  unfolding raise
  Keeps-raise e = record { at = λ s h. tt }

  pub Keeps-gets : {A : Type 0} (f : S → A) → Keeps P (gets f)
  unfolding gets
  Keeps-gets f = record { at = λ s h. h }

  pub Hoare-modify :
      {Q : Unit {0} → S → Type 0} (f : S → S) → ((s : S) → P s → Q tt (f s)) → Hoare P (modify f) Q
  unfolding modify
  Hoare-modify f k = record { at = λ s h. k s h }

  pub Hoare-pure :
      {A : Type 0} {Q : A → S → Type 0} (a : A) → ((s : S) → P s → Q a s) → Hoare P (pure a) Q
  unfolding pure
  Hoare-pure a k = record { at = λ s h. k s h }

  pub Hoare-raise : {A : Type 0} {Q : A → S → Type 0} (e : HttpError) → Hoare P (raise e) Q
  unfolding raise
  Hoare-raise e = record { at = λ s h. tt }

  pub Hoare-gets : {A : Type 0} (f : S → A) → Hoare P (gets f) (λ a s. P s × (a ≡ f s))
  unfolding gets
  Hoare-gets f = record { at = λ s h. (h, refl) }

  pub Keeps-modify : (f : S → S) → ((s : S) → P s → P (f s)) → Keeps P (modify f)
  unfolding modify
  Keeps-modify f k = record { at = λ s h. k s h }

  pub Keeps-raise_if : (b : Bool) (e : HttpError) → Keeps P (raise_if {S = S} b e)
  Keeps-raise_if b e = record { at = raise_if-Ends P b e }

  pub Hoare-raise_if :
      (b : Bool) (e : HttpError) → Hoare P (raise_if {S = S} b e) (λ _ s. P s × (b ≡ false))
  Hoare-raise_if b e = record { at = raise_if-tells P b e }

  pub Keeps-if :
      {A : Type 0} (b : Bool) (m n : Tx S A) → Keeps P m → Keeps P n → Keeps P (if b then m else n)
  Keeps-if true m n km kn = km
  Keeps-if false m n km kn = kn

module _ {S : Type 0} {P : S → Type 0} where
  -- A fact that does not mention the state may be used to build the rest of a transaction.
  pub Hoare-fact :
      {A : Type 0} {F : Type 0} {Q : A → S → Type 0} (m : Tx S A)
      → (F → Hoare P m Q)
      → Hoare (λ s. P s × F) m Q
  Hoare-fact m k = record { at = λ s h. (k h.1).at s h.0 }

  pub Hoare-pre :
      {A : Type 0} {R : S → Type 0} {Q : A → S → Type 0} (m : Tx S A)
      → ((s : S) → R s → P s)
      → Hoare P m Q
      → Hoare R m Q
  Hoare-pre m w k = record { at = λ s h. k.at s (w s h) }

module _ {S A : Type 0} {P : S → Type 0} {Q : A → S → Type 0} where
  pub Hoare-if :
      (b : Bool) (m n : Tx S A) → Hoare P m Q → Hoare P n Q → Hoare P (if b then m else n) Q
  Hoare-if true m n km kn = km
  Hoare-if false m n km kn = kn

module _ {S A B : Type 0} (Q : A → S → Type 0) (R : B → S → Type 0) where
  bind-Ends :
      (o : Outcome S A) (f : A → Tx S B)
      → Ends Q o
      → ((a : A) (s : S) → Q a s → Ends R (f a s))
      → Ends R (continue o f)
  bind-Ends (done a s) f h k = k a s h
  bind-Ends (raised e) f h k = tt

module _ {S A B : Type 0} {P : S → Type 0} {Q : A → S → Type 0} {R : B → S → Type 0} where
  pub Hoare-bind :
      (m : Tx S A) (f : A → Tx S B)
      → Hoare P m Q
      → ((a : A) → Hoare (Q a) (f a) R)
      → Hoare P (m >>= f) R
  unfolding ◌>>=◌
  Hoare-bind m f km kf = record {
    at = λ s h. bind-Ends Q R (m s) f (km.at s h) (λ a s' q. (kf a).at s' q);
  }

module _ {S A B : Type 0} {P : S → Type 0} where
  pub Keeps-bind :
      (m : Tx S A) (f : A → Tx S B) → Keeps P m → ((a : A) → Keeps P (f a)) → Keeps P (m >>= f)
  Keeps-bind m f km kf = Hoare-bind m f km kf

module _ {S A : Type 0} {P : S → Type 0} where
  -- A handler keeps what its transaction keeps: it is rolled back if it raises.
  pub commit-keeps : (m : Tx S (Reply A)) → Keeps P m → (s : S) → P s → P (commit m s).1
  unfolding commit
  commit-keeps m k s p = go (m s) (k.at s p)
    where
      go :
          (o : Outcome S (Reply A))
          → Ends (λ _ t. P t) o
          → P (
              let r : Reply A × S = elim o [
                | done reply t ↦ (reply, t)
                | raised e ↦ (refused e, s)
              ] in
              r.1)
      go (done r t) h = h
      go (raised e) h = p

pub ruleset keeps_rules =
    (Keeps-pure, Keeps-raise, Keeps-gets, Keeps-modify, Keeps-raise_if, Keeps-if, Keeps-bind)
