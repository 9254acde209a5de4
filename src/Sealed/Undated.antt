-- ===== src/Sealed/Undated.antt =====
-- A sealed blob whose timestamp is not a number is never too old.
use rustdesk_managed_directo.Common.{
  ℕ, String, ◌≡◌, refl, sym, ap, ◌∙◌, ◌+◌, ◌<◌, true, false, not, ◌||◌, Option, none, some, [],
  arith, inl, inr, ltb, Bool-cases, Option-cases, is_null, select, exists_where,
}
use rustdesk_managed_directo.Sealed.{Outside}
use rustdesk_managed_directo.Sealed.Envelope.{
  not_a_number, Envelope, Target, replay_retention, is_skewed, one_of_texts, methods, is_bad_target,
  target_at, inner_target, claim_replay_slot, admit_target, admit, purge,
}

target_at-undated :
    (outside : Outside) (a b : ℕ) (e : Envelope) (path : String)
    → target_at outside a e path (some not_a_number)
      ≡ target_at outside b e path (some not_a_number)
unfolding target_at is_skewed
target_at-undated outside a b e path = refl

inner_target-undated :
    (outside : Outside) (a b : ℕ) (e : Envelope)
    → e.sent_at ≡ some not_a_number
    → inner_target outside a e ≡ inner_target outside b e
unfolding inner_target
inner_target-undated outside a b e sent =
    elim (Bool-cases
      (not (one_of_texts methods (outside.upper e.method)) || is_bad_target outside e.target)) [
        | inl bad ↦ rw bad refl
        | inr good ↦ elim (Option-cases (outside.plain_path e.target)) [
          | inl strange ↦ rw (good, strange) refl
          | inr (path, plain) ↦
              rw (good, plain)
                (ap (target_at outside a e path) sent
                  ∙ target_at-undated outside a b e path
                  ∙ sym (ap (target_at outside b e path) sent))
        ]
      ]

module _ (outside : Outside) where
  -- The only slot is purged when it is old.
  purge-old :
      (first second : ℕ) (e : Envelope) (t : Target)
      → first + replay_retention < second
      → purge second (admit_target outside first e.eph_pub (some t) []).1 ≡ []
  unfolding purge claim_replay_slot exists_where select
  purge-old first second e t old =
      let over : ltb (first + replay_retention) second ≡ true = ground (arith, old) in rw over refl

  again :
      (first second : ℕ) (e : Envelope) (t : Option Target)
      → is_null (admit_target outside first e.eph_pub t []).0 ≡ false
      → first + replay_retention < second
      → is_null
          (admit_target outside second e.eph_pub t
            (purge second (admit_target outside first e.eph_pub t []).1)).0
        ≡ false
  unfolding claim_replay_slot exists_where
  again first second e none h old = cc h
  again first second e (some t) h old = rw (purge-old first second e t old) refl

  -- A blob whose timestamp is not a number is let in again, at any time after its slot has been purged.
  pub admit-again :
      (opens : String → Option Envelope) (first second : ℕ) (blob : String) (e : Envelope)
      → opens blob ≡ some e
      → e.sent_at ≡ some not_a_number
      → is_null (admit outside opens first blob []).0 ≡ false
      → first + replay_retention < second
      → is_null
          (admit outside opens second blob (purge second (admit outside opens first blob []).1)).0
        ≡ false
  unfolding admit
  admit-again opens first second blob e opened sent let_in old =
      let entered : is_null
            (admit_target outside first e.eph_pub (inner_target outside first e) []).0
          ≡ false =
        (rw opened at let_in) in
      rw (opened, inner_target-undated outside second first e sent)
        (again first second e (inner_target outside first e) entered old)
