-- ===== src/Tests/Limiter.antt =====
-- Three calls of the limiter, two of them with one key and a limit of one.
use rustdesk_managed_directo.Common.{ℕ, String, ◌≡◌, refl, ◌≤◌, List, [], ◌∷◌, count_where, arith}
use rustdesk_managed_directo.Limiter.{Call, allow, after, bucket_of, drop_old, let_through}
use rustdesk_managed_directo.Limiter.Bound.{in_window, allow-limit}

abbrev call : String → ℕ → Call
call subject now = record {
  purpose = "recovery";
  subject = subject;
  limit = 1;
  window = 60;
  now = now;
}

abbrev calls : List Call
calls = call "brad" 30 ∷ call "amy" 20 ∷ call "brad" 10 ∷ []

-- The second call of the key within its window is refused.
calls_run : let_through "recovery" "brad" calls ≡ 10 ∷ []
unfolding let_through after allow bucket_of drop_old
calls_run = refl

allow-limit_example : count_where (in_window 60 50) (let_through "recovery" "brad" calls) ≤ 1
allow-limit_example =
    allow-limit "recovery" "brad" 1 60 50 calls
      ((λ own. (refl, refl)), ((λ own. (refl, refl)), ((λ own. (refl, refl)), tt)))
      (omega arith, (omega arith, (omega arith, tt)))
