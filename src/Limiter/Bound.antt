-- ===== src/Limiter/Bound.antt =====
-- The limiter lets no more calls through in a window than its limit.
use rustdesk_managed_directo.Common.{
  ℕ, suc, String, ◌≡◌, refl, sym, ap, ◌∙◌, ◌+◌, ◌≤◌, Bool, true, false, ◌&&◌, List, [], ◌∷◌, ◌++◌,
  str_eq_iff, leb, ltb, length, All, count_where, if◌then◌else◌, arith, inl, inr, Bool-cases,
}
use rustdesk_managed_directo.Limiter.{
  Events, Call, is_key, drop_old, put, bucket_of, allow, after, let_through,
}

-- Times in the window that ends at `now`.
abbrev pub in_window : ℕ → ℕ → ℕ → Bool
in_window window now t = ltb now (t + window)

count_where-drop_old :
    (window now later : ℕ) (bucket : List ℕ)
    → now ≤ later
    → count_where (in_window window later) (drop_old window now bucket)
      ≡ count_where (in_window window later) bucket
unfolding drop_old count_where
count_where-drop_old window now later [] h = refl
count_where-drop_old window now later (t ∷ bucket) h =
    ground (arith, count_where-drop_old window now later bucket h)

count_where-snoc :
    (p : ℕ → Bool) (bucket : List ℕ) (t : ℕ)
    → count_where p (bucket ++ (t ∷ []))
      ≡ (if p t then suc (count_where p bucket) else count_where p bucket)
unfolding count_where
count_where-snoc p [] t = refl
count_where-snoc p (s ∷ bucket) t = ground (arith, count_where-snoc p bucket t)

count_where-length : (p : ℕ → Bool) (bucket : List ℕ) → count_where p bucket ≤ length bucket
unfolding count_where
count_where-length p [] = omega arith
count_where-length p (s ∷ bucket) = ground (arith, count_where-length p bucket)

-- The deque of a key after a call with the key.
module _ (purpose subject : String) (c : Call) (calls : List Call) where
  abbrev old_bucket : List ℕ
  old_bucket = drop_old c.window c.now (after calls purpose subject)

  bucket_of-own : is_key purpose subject c ≡ true → bucket_of c (after calls) ≡ old_bucket
  unfolding bucket_of
  bucket_of-own own =
      let p : c.purpose ≡ purpose = (str_eq_iff _ _).0 (ground arith) in
      let q : c.subject ≡ subject = (str_eq_iff _ _).0 (ground arith) in rw (p, q) refl

  put-own :
      (bucket : List ℕ) (events : Events)
      → is_key purpose subject c ≡ true
      → put c bucket events purpose subject ≡ bucket
  put-own bucket events own = rw own refl

  put-other :
      (bucket : List ℕ) (events : Events)
      → is_key purpose subject c ≡ false
      → put c bucket events purpose subject ≡ events purpose subject
  put-other bucket events other = rw other refl

  allow-full :
      leb c.limit (length (bucket_of c (after calls))) ≡ true
      → allow c (after calls) ≡ (false, put c (bucket_of c (after calls)) (after calls))
  unfolding allow
  allow-full full = rw full refl

  allow-room :
      leb c.limit (length (bucket_of c (after calls))) ≡ false
      → allow c (after calls)
        ≡ (true, put c (bucket_of c (after calls) ++ (c.now ∷ [])) (after calls))
  unfolding allow
  allow-room room = rw room refl

  after-allow :
      (answer : Bool) (events : Events)
      → allow c (after calls) ≡ (answer, events)
      → after (c ∷ calls) purpose subject ≡ events purpose subject
  unfolding after
  after-allow answer events e = ap (λ r. r.1 purpose subject) e

  after-other :
      is_key purpose subject c ≡ false
      → after (c ∷ calls) purpose subject ≡ after calls purpose subject
  after-other other = elim (Bool-cases (leb c.limit (length (bucket_of c (after calls))))) [
    | inl full ↦ after-allow _ _ (allow-full full) ∙ put-other _ (after calls) other
    | inr room ↦ after-allow _ _ (allow-room room) ∙ put-other _ (after calls) other
  ]

  after-full :
      is_key purpose subject c ≡ true
      → leb c.limit (length old_bucket) ≡ true
      → (after (c ∷ calls) purpose subject ≡ old_bucket) × ((allow c (after calls)).0 ≡ false)
  after-full own full =
      let e = allow-full (rw (bucket_of-own own) full) in
      (after-allow _ _ e ∙ put-own _ (after calls) own ∙ bucket_of-own own, ap (λ r. r.0) e)

  after-room :
      is_key purpose subject c ≡ true
      → leb c.limit (length old_bucket) ≡ false
      → (after (c ∷ calls) purpose subject ≡ old_bucket ++ (c.now ∷ []))
        × ((allow c (after calls)).0 ≡ true)
  after-room own room =
      let e = allow-room (rw (bucket_of-own own) room) in
      (
        after-allow _ _ e
            ∙ put-own _ (after calls) own
            ∙ ap (λ l. l ++ (c.now ∷ [])) (bucket_of-own own),
        ap (λ r. r.0) e,
      )

-- No call is later than this.
abbrev pub Until : ℕ → List Call → Type 0
Until later calls = All (λ c. c.now ≤ later) calls

-- The calls with a key all have this limit and this window.
abbrev pub FixedFor : String → String → ℕ → ℕ → List Call → Type 0
FixedFor purpose subject limit window calls =
    All (λ c. is_key purpose subject c ≡ true → (c.limit ≡ limit) × (c.window ≡ window)) calls

module _ (purpose subject : String) (limit window later : ℕ) where
  abbrev recent : List ℕ → ℕ
  recent times = count_where (in_window window later) times

  -- Dropping the times that are too old does not change those in the window.
  kept :
      (c : Call) (calls : List Call)
      → c.window ≡ window
      → c.now ≤ later
      → recent (old_bucket purpose subject c calls) ≡ recent (after calls purpose subject)
  kept c calls w h =
      rw (← w) (count_where-drop_old c.window c.now later (after calls purpose subject) h)

  let_through-step :
      (c : Call) (calls : List Call)
      → recent (let_through purpose subject (c ∷ calls)) ≡ (
          if is_key purpose subject c && (allow c (after calls)).0 && in_window window later c.now
          then suc (recent (let_through purpose subject calls))
          else recent (let_through purpose subject calls))
  unfolding let_through count_where
  let_through-step c calls = ground arith

  -- The deque remembers every time that was let through and is in the window.
  remembers :
      (calls : List Call)
      → FixedFor purpose subject limit window calls
      → Until later calls
      → recent (let_through purpose subject calls) ≡ recent (after calls purpose subject)
  unfolding let_through count_where after
  remembers [] fixed until = refl
  remembers (c ∷ calls) fixed until =
      let ih = remembers calls fixed.1 until.1 in
      elim (Bool-cases (is_key purpose subject c)) [
        | inr other ↦
            rw (let_through-step c calls, other, after-other purpose subject c calls other) ih
        | inl own ↦
            let k = kept c calls (fixed.0 own).1 until.0 in
            elim (Bool-cases (leb c.limit (length (old_bucket purpose subject c calls)))) [
              | inl full ↦
                  let f = after-full purpose subject c calls own full in
                  rw (let_through-step c calls, own, f.1, f.0) (ih ∙ sym k)
              | inr room ↦
                  let f = after-room purpose subject c calls own room in
                  rw
                    (
                      let_through-step c calls,
                      own,
                      f.1,
                      f.0,
                      count_where-snoc (in_window window later) (old_bucket purpose subject c calls)
                          c.now,
                      k,
                      ih,
                    )
                    refl
            ]
      ]

-- Whatever the calls before, with a fixed limit and window for a key, at no time since the last call
-- are more than `limit` calls with the key let through within the window that ends there.
pub allow-limit :
    (purpose subject : String) (limit window later : ℕ) (calls : List Call)
    → FixedFor purpose subject limit window calls
    → Until later calls
    → count_where (in_window window later) (let_through purpose subject calls) ≤ limit
unfolding count_where let_through
allow-limit purpose subject limit window later [] fixed until = omega arith
allow-limit purpose subject limit window later (c ∷ calls) fixed until =
    let ih = allow-limit purpose subject limit window later calls fixed.1 until.1 in
    rw (let_through-step purpose subject limit window later c calls)
      (elim (Bool-cases (is_key purpose subject c)) [
        | inr other ↦ rw other ih
        | inl own ↦ elim (Bool-cases (leb c.limit (length (old_bucket purpose subject c calls)))) [
          | inl full ↦ rw (own, (after-full purpose subject c calls own full).1) ih
          | inr room ↦
              let k =
                remembers purpose subject limit window later calls fixed.1 until.1
                ∙ sym (kept purpose subject limit window later c calls (fixed.0 own).1 until.0) in
              let l =
                count_where-length (in_window window later) (old_bucket purpose subject c calls) in
              let same : c.limit ≡ limit = (fixed.0 own).0 in
              rw (own, (after-room purpose subject c calls own room).1) (ground (arith, k, l, same))
        ]
      ])
