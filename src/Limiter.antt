-- ===== src/Limiter.antt =====
-- security_extension.py `_SlidingWindowLimiter`, the limiter of the recovery endpoints. Its lock makes
-- the calls a sequence; a deque is the list of its times, the oldest first.
pub mod Bound
use rustdesk_managed_directo.Common.{
  ℕ, String, ◌+◌, Bool, true, false, ◌&&◌, List, [], ◌∷◌, ◌++◌, str_eq, leb, length, if◌then◌else◌,
}

-- `self._events`, a defaultdict(deque)
abbrev pub Events : Type 0
Events = String → String → List ℕ

-- The arguments of `allow`, and what `time.monotonic()` answers.
pub record Call : Type 0 where
  pub purpose : String
  pub subject : String
  pub limit : ℕ
  pub window : ℕ
  pub now : ℕ

abbrev pub is_key : String → String → Call → Bool
is_key purpose subject c = str_eq c.purpose purpose && str_eq c.subject subject

-- while bucket and bucket[0] <= now - window: bucket.popleft()
unfoldable pub drop_old : ℕ → ℕ → List ℕ → List ℕ
drop_old window now [] = []
drop_old window now (t ∷ bucket) =
    let rest = drop_old window now bucket in if leb (t + window) now then rest else t ∷ bucket

unfoldable pub bucket_of : Call → Events → List ℕ
bucket_of c events = drop_old c.window c.now (events c.purpose c.subject)

abbrev pub put : Call → List ℕ → Events → Events
put c bucket events purpose subject =
    if is_key purpose subject c then bucket else events purpose subject

-- The answer, and the deques after it.
unfoldable pub allow : Call → Events → Bool × Events
unfolding bucket_of
allow c events =
    if leb c.limit (length (bucket_of c events))
    then (false, put c (bucket_of c events) events)
    else (true, put c (bucket_of c events ++ (c.now ∷ [])) events)

-- The deques after some calls, of which the newest is the first of the list.
unfoldable pub after : List Call → String → String → List ℕ
after [] purpose subject = []
after (c ∷ calls) purpose subject = (allow c (after calls)).1 purpose subject

-- The times at which a key was let through.
unfoldable pub let_through : String → String → List Call → List ℕ
let_through purpose subject [] = []
let_through purpose subject (c ∷ calls) =
    let rest = let_through purpose subject calls in
    if is_key purpose subject c && (allow c (after calls)).0 then c.now ∷ rest else rest
