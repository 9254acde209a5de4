-- ===== src/Sealed/Replay.antt =====
-- A sealed blob is let in once.
use rustdesk_managed_directo.Common.{
  ℕ, String, ◌≡◌, refl, ap, ◌∙◌, ◌+◌, ◌≤◌, true, false, not, ◌&&◌, ◌||◌, Option, none, some, List,
  [], ◌∷◌, arith, inl, inr, str_eq, str_eq_iff, ltb, leb, Bool-cases, Option-cases, is_null, All,
  All-mono, length, exists_where,
}
use rustdesk_managed_directo.Common.Picks.{exists_where-kept, exists_where-stronger}
use rustdesk_managed_directo.Sealed.{Outside, ReplayRow}
use rustdesk_managed_directo.Sealed.Envelope.{
  instant, Envelope, Target, replay_retention, is_skewed, one_of_texts, methods, is_bad_target,
  is_bad_path, target_at, inner_target, has_hash, claim_replay_slot, admit_target, admit_envelope,
  admit, purge,
}

-- What happens to the slots: blobs arrive and old slots are purged, in any order.
pub data Event : Type 0 where
  arrived : ℕ → String → Event
  purged : ℕ → Event

-- No purge is later than a time.
abbrev pub PurgedBy : ℕ → Event → Type 0
PurgedBy end (arrived now blob) = Unit
PurgedBy end (purged now) = now ≤ end

-- There is a slot for the hash that is no older than a time.
abbrev pub Claimed : String → ℕ → List ReplayRow → Type 0
Claimed hash since rows = exists_where (λ r. has_hash hash r && leb since r.seen_at) rows ≡ true

target_at-skewed :
    (outside : Outside) (now t : ℕ) (e : Envelope) (path : String)
    → is_skewed now (instant t) ≡ true
    → target_at outside now e path (some (instant t)) ≡ none
unfolding target_at
target_at-skewed outside now t e path skewed =
    let refused : (is_bad_path outside path
          || is_skewed now (instant t)
          || ltb 32 (length e.headers))
        ≡ true =
      ground (arith, skewed) in
    rw refused refl

-- A blob whose timestamp is off is refused.
inner_target-skewed :
    (outside : Outside) (now t : ℕ) (e : Envelope)
    → e.sent_at ≡ some (instant t)
    → is_skewed now (instant t) ≡ true
    → inner_target outside now e ≡ none
unfolding inner_target
inner_target-skewed outside now t e sent skewed =
    elim (Bool-cases
      (not (one_of_texts methods (outside.upper e.method)) || is_bad_target outside e.target)) [
        | inl bad ↦ rw bad refl
        | inr good ↦ elim (Option-cases (outside.plain_path e.target)) [
          | inl strange ↦ rw (good, strange) refl
          | inr (path, plain) ↦
              rw (good, plain)
                (ap (target_at outside now e path) sent
                  ∙ target_at-skewed outside now t e path skewed)
        ]
      ]

Claimed-exists :
    (hash : String) (since : ℕ) (rows : List ReplayRow)
    → Claimed hash since rows
    → exists_where (has_hash hash) rows ≡ true
Claimed-exists hash since rows h = elim (Bool-cases (exists_where (has_hash hash) rows)) [
  | inl e ↦ e
  | inr e ↦
      let k =
        exists_where-stronger (λ r. has_hash hash r && leb since r.seen_at) (has_hash hash)
          (λ r q. ground (arith, q)) rows e in
      cc (h, k)
]

-- Two times at which a timestamp is accepted are less apart than a slot is kept.
window :
    (first second t : ℕ)
    → is_skewed first (instant t) ≡ false
    → is_skewed second (instant t) ≡ false
    → second ≤ first + replay_retention
unfolding is_skewed
window first second t a b = ground (arith, a, b)

PurgedBy-mono : (a b : ℕ) → a ≤ b → (e : Event) → PurgedBy a e → PurgedBy b e
PurgedBy-mono a b h (arrived now blob) p = tt
PurgedBy-mono a b h (purged now) p = omega (arith, h, p)

module _ (outside : Outside) (opens : String → Option Envelope) where
  unfoldable pub after : Event → List ReplayRow → List ReplayRow
  after (arrived now blob) rows = (admit outside opens now blob rows).1
  after (purged now) rows = purge now rows

  unfoldable pub after_all : List Event → List ReplayRow → List ReplayRow
  unfolding after
  after_all [] rows = rows
  after_all (e ∷ es) rows = after_all es (after e rows)

  claim-Claimed :
      (hash eph_pub : String) (since now : ℕ) (rows : List ReplayRow)
      → Claimed hash since rows
      → Claimed hash since (claim_replay_slot outside now eph_pub rows).1
  unfolding claim_replay_slot exists_where
  claim-Claimed hash eph_pub since now rows h =
      elim (Bool-cases (exists_where (has_hash (outside.sha256 eph_pub)) rows)) [
        | inl e ↦ rw e h
        | inr e ↦ rw e (ground (arith, h))
      ]

  admit_target-Claimed :
      (hash eph_pub : String) (since now : ℕ) (t : Option Target) (rows : List ReplayRow)
      → Claimed hash since rows
      → Claimed hash since (admit_target outside now eph_pub t rows).1
  admit_target-Claimed hash eph_pub since now none rows h = h
  admit_target-Claimed hash eph_pub since now (some t) rows h =
      claim-Claimed hash eph_pub since now rows h

  admit_envelope-Claimed :
      (hash : String) (since now : ℕ) (e : Option Envelope) (rows : List ReplayRow)
      → Claimed hash since rows
      → Claimed hash since (admit_envelope outside now e rows).1
  admit_envelope-Claimed hash since now none rows h = h
  admit_envelope-Claimed hash since now (some e) rows h =
      admit_target-Claimed hash e.eph_pub since now (inner_target outside now e) rows h

  -- A purge that is not too late leaves the slot.
  purge-Claimed :
      (hash : String) (since now : ℕ) (rows : List ReplayRow)
      → now ≤ since + replay_retention
      → Claimed hash since rows
      → Claimed hash since (purge now rows)
  unfolding purge
  purge-Claimed hash since now rows early h =
      exists_where-kept (λ r. has_hash hash r && leb since r.seen_at) _ (λ r e. ground arith) rows
      ∙ h

  after_all-Claimed :
      (hash : String) (since : ℕ) (es : List Event) (rows : List ReplayRow)
      → All (PurgedBy (since + replay_retention)) es
      → Claimed hash since rows
      → Claimed hash since (after_all es rows)
  unfolding after_all after admit
  after_all-Claimed hash since [] rows early h = h
  after_all-Claimed hash since (arrived now blob ∷ es) rows early h =
      after_all-Claimed hash since es (admit outside opens now blob rows).1 early.1
        (admit_envelope-Claimed hash since now (opens blob) rows h)
  after_all-Claimed hash since (purged now ∷ es) rows early h =
      after_all-Claimed hash since es (purge now rows) early.1
        (purge-Claimed hash since now rows early.0 h)

  -- An admission leaves a slot.
  admitted-Claimed :
      (now : ℕ) (e : Envelope) (t : Option Target) (rows : List ReplayRow)
      → is_null (admit_target outside now e.eph_pub t rows).0 ≡ false
      → Claimed (outside.sha256 e.eph_pub) now (admit_target outside now e.eph_pub t rows).1
  unfolding claim_replay_slot exists_where has_hash
  admitted-Claimed now e none rows h = cc h
  admitted-Claimed now e (some t) rows h =
      let own = (str_eq_iff (outside.sha256 e.eph_pub) (outside.sha256 e.eph_pub)).1 refl in
      elim (Bool-cases (exists_where (λ r. str_eq r.eph_hash (outside.sha256 e.eph_pub)) rows)) [
        | inl taken ↦ let k : true ≡ false = (rw (claim_replay_slot, has_hash, taken) at h) in cc k
        | inr free ↦ rw free (ground (arith, own))
      ]

  -- A claimed hash is not admitted.
  Claimed-refused :
      (now since : ℕ) (e : Envelope) (t : Option Target) (rows : List ReplayRow)
      → Claimed (outside.sha256 e.eph_pub) since rows
      → is_null (admit_target outside now e.eph_pub t rows).0 ≡ true
  unfolding claim_replay_slot
  Claimed-refused now since e none rows h = refl
  Claimed-refused now since e (some t) rows h =
      rw (Claimed-exists (outside.sha256 e.eph_pub) since rows h) refl

  -- Once a blob with a timestamp has been let in, it is never let in again, whatever blobs arrive and
  -- however often old slots are purged before, as long as no purge is later than its second arrival.
  pub admit-once :
      (first second t : ℕ) (blob : String) (e : Envelope) (es : List Event) (rows : List ReplayRow)
      → opens blob ≡ some e
      → e.sent_at ≡ some (instant t)
      → is_null (admit outside opens first blob rows).0 ≡ false
      → All (PurgedBy second) es
      → is_null
          (admit outside opens second blob (after_all es (admit outside opens first blob rows).1)).0
        ≡ true
  unfolding admit
  admit-once first second t blob e es rows opened sent let_in early =
      let entered : is_null
            (admit_target outside first e.eph_pub (inner_target outside first e) rows).0
          ≡ false =
        (rw opened at let_in) in
      rw opened (elim (Bool-cases (is_skewed second (instant t))) [
        | inl late ↦ rw (inner_target-skewed outside second t e sent late) refl
        | inr timely ↦ elim (Bool-cases (is_skewed first (instant t))) [
          | inl off ↦
              let k : true ≡ false =
                (rw (inner_target-skewed outside first t e sent off) at entered) in
              cc k
          | inr on ↦ Claimed-refused second first e (inner_target outside second e) _ (
              after_all-Claimed (outside.sha256 e.eph_pub) first es _
                (All-mono
                  (PurgedBy-mono second (first + replay_retention)
                    (window first second t on timely))
                  es early)
                (admitted-Claimed first e (inner_target outside first e) rows entered))
        ]
      ])
