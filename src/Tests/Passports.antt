-- ===== src/Tests/Passports.antt =====
-- A key update of one device, and the result that the certificate authority posts for it.
use rustdesk_managed_directo.Common.{
  ℕ, String, ◌≡◌, refl, true, false, none, some, [], ◌∷◌, ◌==◌, find_where, Bool-cases, inl, inr,
}
use rustdesk_managed_directo.Http.{commit}
use rustdesk_managed_directo.Store.{keyupdate, Job, Db}
use rustdesk_managed_directo.Store.Queries.{get_device}
use rustdesk_managed_directo.Passports.{
  Codec, JobResult, OnFile, split_dots, read_passport, passport_mismatch, post_results,
}
use rustdesk_managed_directo.Passports.Keys.{GoodKeys, post_results-Good}
use rustdesk_managed_directo.Passports.Mismatch.{Matches, passport_mismatch-Matches}
use rustdesk_managed_directo.Tests.{device_1, db}

abbrev codec : Codec
codec = record {
  read_body = λ part. some (record {
    idk = some part;
    rid = some "100200300";
    did = some "1";
    serial = some "serial-1";
  });
  encode_key = λ key. key;
  show_id = λ id. "1";
}

abbrev job : Job
job = record {
  id = 30;
  kind = keyupdate;
  device_id = some 1;
  expected_idk = some "new-key";
  expected_prot = some "tpm";
  is_done = false;
  ok = none;
}

abbrev result : JobResult
result = record {
  id = 30;
  ok = true;
  passport = some "rdcp1.a.b.new-key.c";
  serial = some "serial-1";
  idk = some "new-key";
}

abbrev on_file : OnFile
on_file = record { key = some "key-1"; rid = some "100200300"; did = some "1" }

no_mismatch : passport_mismatch codec job on_file result ≡ none
unfolding passport_mismatch read_passport split_dots
no_mismatch = refl

passport_mismatch-Matches_example : Matches codec job on_file result
passport_mismatch-Matches_example = passport_mismatch-Matches codec job on_file result no_mismatch

abbrev with_job : Db
with_job = record db { jobs = job ∷ []; devices = device_1 ∷ [] }

-- The keys that may get on file.
abbrev Verified : ℕ → String → Type 0
Verified k key = key ≡ "new-key"

new_key : (key : String) → some "new-key" ≡ some key → key ≡ "new-key"
new_key key e = cc

with_job-GoodKeys : GoodKeys Verified with_job
unfolding get_device find_where
with_job-GoodKeys = (
  ((λ own k key mine e. new_key key e), tt),
  λ k. elim (Bool-cases (1 == k)) [ inl on ↦ rw on (λ key e. cc) | inr off ↦ rw off tt ],
)

post_results-Good_example : GoodKeys Verified (commit (post_results codec (result ∷ [])) with_job).1
post_results-Good_example =
    post_results-Good Verified codec (result ∷ []) with_job with_job-GoodKeys
