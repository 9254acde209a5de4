-- ===== src/Operators/Lockout.antt =====
-- How many guesses of a password or a code one account allows.
use rustdesk_managed_directo.Common.{
  ℕ, suc, ◌≡◌, refl, ◌∙◌, ◌+◌, ◌-◌, ◌≤◌, ◌<◌, Bool, true, false, Option, none, some, List, [], ◌∷◌,
  arith, leb, ltb, inl, inr, if◌then◌else◌, Bool-cases, All, All-mono, after_now,
}
use rustdesk_managed_directo.Store.{Account}
use rustdesk_managed_directo.Operators.SignIn.{
  max_login_failures, lockout_seconds, is_unavailable, count_failure,
}

-- The guard as an automaton of its own: what one account remembers of its failures.
pub record Guard : Type 0 where
  pub failures : ℕ
  pub locked_until : Option ℕ

-- What an attempt at a time is answered with: not looked at, wrong, or right.
pub data Answer : Type 0 where
  ignored wrong right : Answer

unfoldable pub attempt : ℕ → Bool → Guard → Answer × Guard
attempt now valid g =
    if after_now g.locked_until now
    then (ignored, g)
    else if valid
    then (right, record { failures = 0; locked_until = none })
    else (
      wrong,
      record {
        failures = g.failures + 1;
        locked_until = if leb 5 (g.failures + 1) then some (now + 900) else none;
      },
    )

abbrev pub guard_of : Account → Guard
guard_of a = record { failures = a.failed_login_count; locked_until = a.locked_until }

abbrev pub tally : Bool → ℕ → ℕ
tally true n = n
tally false n = suc n

-- The account after an attempt with wrong credentials, which an unavailable account does not look at.
unfoldable pub missed : ℕ → Account → Account
missed now a = if is_unavailable now a then a else count_failure now a

-- The attempts with wrong credentials that are looked at, the oldest first.
unfoldable pub wrong_guesses : List ℕ → Account → ℕ
unfolding missed
wrong_guesses [] a = 0
wrong_guesses (now ∷ times) a = tally (is_unavailable now a) (wrong_guesses times (missed now a))

-- All the times are before the end.
abbrev pub Before : ℕ → List ℕ → Type 0
Before end times = All (λ now. now < end) times

-- The failures that are left before the lock, at least one.
abbrev pub left : ℕ → ℕ
left n = if leb max_login_failures (n + 1) then 1 else max_login_failures - n

step-unavailable :
    (now : ℕ) (times : List ℕ) (a : Account)
    → is_unavailable now a ≡ true
    → wrong_guesses (now ∷ times) a ≡ wrong_guesses times a
unfolding wrong_guesses missed
step-unavailable now times a e = rw e refl

step-available :
    (now : ℕ) (times : List ℕ) (a : Account)
    → is_unavailable now a ≡ false
    → wrong_guesses (now ∷ times) a ≡ suc (wrong_guesses times (count_failure now a))
unfolding wrong_guesses missed
step-available now times a e = rw e refl

-- A locked account looks at nothing before its lock ends.
locked-wrong_guesses :
    (until : ℕ) (times : List ℕ) (a : Account)
    → a.locked_until ≡ some until
    → Before until times
    → wrong_guesses times a ≡ 0
unfolding wrong_guesses
locked-wrong_guesses until [] a e h = refl
locked-wrong_guesses until (now ∷ times) a e h =
    let later : ltb now until ≡ true = ground (arith, h.0) in
    let locked : after_now a.locked_until now ≡ true = rw e later in
    step-unavailable now times a (ground (arith, locked)) ∙ locked-wrong_guesses until times a e h.1

-- After the last failure the account is locked.
count_failure-locks :
    (now : ℕ) (a : Account)
    → leb max_login_failures (a.failed_login_count + 1) ≡ true
    → (count_failure now a).locked_until ≡ some (now + lockout_seconds)
unfolding count_failure
count_failure-locks now a e = rw e refl

left-step :
    (now : ℕ) (a : Account)
    → leb max_login_failures (a.failed_login_count + 1) ≡ false
    → suc (left (count_failure now a).failed_login_count) ≤ left a.failed_login_count
unfolding count_failure
left-step now a h = ground arith

-- Of attempts with wrong credentials within 15 minutes of a start, in any number, an account looks at
-- five at most, and at fewer if it has seen failures since the last sign-in: at as many as are left
-- before the lock, or at one if none are.
pub wrong_guesses-bound :
    (start : ℕ) (times : List ℕ) (a : Account)
    → All (λ now. start ≤ now) times
    → Before (start + lockout_seconds) times
    → wrong_guesses times a ≤ left a.failed_login_count
unfolding wrong_guesses
wrong_guesses-bound start [] a later before = ground arith
wrong_guesses-bound start (now ∷ times) a later before = elim (Bool-cases (is_unavailable now a)) [
  | inl shut ↦
      rw (step-unavailable now times a shut) (wrong_guesses-bound start times a later.1 before.1)
  | inr free ↦
      rw (step-available now times a free)
        (elim (Bool-cases (leb max_login_failures (a.failed_login_count + 1))) [
          | inl last ↦
              rw
                (locked-wrong_guesses (now + lockout_seconds) times (count_failure now a)
                  (count_failure-locks now a last) (All-mono (λ t h. omega arith) times before.1))
                (ground (arith, last))
          | inr more ↦
              let rest = wrong_guesses-bound start times (count_failure now a) later.1 before.1 in
              omega (arith, rest, left-step now a more)
        ])
]
