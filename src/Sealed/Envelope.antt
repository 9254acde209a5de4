-- ===== src/Sealed/Envelope.antt =====
-- sealed.py `inner_target`, `_claim_replay_slot` and the purge of old slots.
use rustdesk_managed_directo.Common.{
  ℕ, String, ◌+◌, Bool, true, false, not, ◌||◌, Option, none, some, List, [], ◌∷◌, str_eq, ltb,
  if◌then◌else◌, length, select, exists_where,
}
use rustdesk_managed_directo.Sealed.{Outside, ReplayRow}

-- `float(meta["t"])`: an instant, or not a number, which compares as false with everything.
pub data Timestamp : Type 0 where
  instant : ℕ → Timestamp
  not_a_number : Timestamp

-- What `open_request` finds in a blob. No timestamp is one that `float` does not read; a header pair
-- that is not a list of two is none.
pub record Envelope : Type 0 where
  pub eph_pub : String
  pub method : String
  pub target : String
  pub sent_at : Option Timestamp
  pub headers : List (Option (String × String))

pub record Target : Type 0 where
  pub method : String
  pub target : String
  pub path : String
  pub headers : List (String × String)

abbrev pub clock_skew : ℕ
clock_skew = 600

-- REPLAY_RETENTION, in seconds
abbrev pub replay_retention : ℕ
replay_retention = 1500

-- abs(time.time() - sent_at) > CLOCK_SKEW_SECONDS
unfoldable pub is_skewed : ℕ → Timestamp → Bool
is_skewed now (instant t) = ltb (t + clock_skew) now || ltb (now + clock_skew) t
is_skewed now not_a_number = false

unfoldable pub one_of_texts : List String → String → Bool
one_of_texts texts t = exists_where (λ s. str_eq s t) texts

abbrev pub methods : List String
methods = "GET" ∷ "HEAD" ∷ "POST" ∷ "PUT" ∷ "PATCH" ∷ "DELETE" ∷ []

abbrev pub inner_request_headers : List String
inner_request_headers =
    "authorization" ∷ "content-type" ∷ "accept" ∷ "user-agent" ∷ "range" ∷ "upload-offset"
    ∷ "upload-length" ∷ "x-content-sha256" ∷ "if-match" ∷ "if-none-match" ∷ []

unfoldable pub is_bad_target : Outside → String → Bool
is_bad_target outside target =
    ltb 4096 (outside.text_length target)
    || not (outside.is_printable target)
    || not (outside.has_prefix target "/v1/")
    || outside.has_prefix target "/v1/sealed"

unfoldable pub is_bad_path : Outside → String → Bool
is_bad_path outside path =
    outside.contains path "//"
    || outside.contains path "\\"
    || outside.contains path "%"
    || outside.contains path "/./"
    || outside.contains path "/../"
    || outside.has_suffix path "/."
    || outside.has_suffix path "/.."

abbrev pub with_header :
    String × String → Option (List (String × String)) → Option (List (String × String))
with_header h none = none
with_header h (some hs) = some (h ∷ hs)

-- The headers of the envelope that may pass, unless one is malformed.
unfoldable pub inner_headers :
    Outside → List (Option (String × String)) → Option (List (String × String))
inner_headers outside [] = some []
inner_headers outside (none ∷ hs) = none
inner_headers outside (some (name, value) ∷ hs) =
    let rest = inner_headers outside hs in
    if not (one_of_texts inner_request_headers (outside.lower name))
    then rest
    else if ltb 8192 (outside.text_length value)
        || outside.contains value "\r"
        || outside.contains value "\n"
    then none
    else with_header (outside.lower name, value) rest

unfoldable pub target_with :
    String → String → String → Option (List (String × String)) → Option Target
target_with method target path none = none
target_with method target path (some headers) =
    some (record { method = method; target = target; path = path; headers = headers })

unfoldable pub target_at : Outside → ℕ → Envelope → String → Option Timestamp → Option Target
target_at outside now e path none = none
target_at outside now e path (some t) =
    if is_bad_path outside path || is_skewed now t || ltb 32 (length e.headers)
    then none
    else target_with (outside.upper e.method) e.target path (inner_headers outside e.headers)

-- `inner_target`, where an envelope that is refused is none
unfoldable pub inner_target : Outside → ℕ → Envelope → Option Target
inner_target outside now e =
    if not (one_of_texts methods (outside.upper e.method)) || is_bad_target outside e.target
    then none
    else elim (outside.plain_path e.target) [
      | none ↦ none
      | some path ↦ target_at outside now e path e.sent_at
    ]

unfoldable pub has_hash : String → ReplayRow → Bool
has_hash hash r = str_eq r.eph_hash hash

-- `_claim_replay_slot`: INSERT … ON CONFLICT DO NOTHING
unfoldable pub claim_replay_slot : Outside → ℕ → String → List ReplayRow → Bool × List ReplayRow
claim_replay_slot outside now eph_pub rows =
    if exists_where (has_hash (outside.sha256 eph_pub)) rows
    then (false, rows)
    else (true, record { eph_hash = outside.sha256 eph_pub; seen_at = now } ∷ rows)

abbrev pub admit_target :
    Outside → ℕ → String → Option Target → List ReplayRow → Option Target × List ReplayRow
admit_target outside now eph_pub none rows = (none, rows)
admit_target outside now eph_pub (some t) rows =
    let claimed = claim_replay_slot outside now eph_pub rows in
    (if claimed.0 then some t else none, claimed.1)

abbrev pub admit_envelope :
    Outside → ℕ → Option Envelope → List ReplayRow → Option Target × List ReplayRow
admit_envelope outside now none rows = (none, rows)
admit_envelope outside now (some e) rows =
    admit_target outside now e.eph_pub (inner_target outside now e) rows

-- The start of `sealed_call`: the target of a blob that is let in. How a blob is opened is a parameter.
unfoldable pub admit :
    Outside
    → (String → Option Envelope)
    → ℕ
    → String
    → List ReplayRow
    → Option Target × List ReplayRow
admit outside opens now blob rows = admit_envelope outside now (opens blob) rows

-- DELETE FROM sealed_replay WHERE seen_at < now() - …
unfoldable pub purge : ℕ → List ReplayRow → List ReplayRow
purge now rows = select (λ r. not (ltb (r.seen_at + replay_retention) now)) rows
