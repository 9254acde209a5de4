-- ===== src/Passports.antt =====
-- ca_link.py: what the directory takes from the certificate authority. `_on_file_key`,
-- `passport_mismatch` and `post_results`.
pub mod Keys
pub mod Mismatch
use Prim.Native.Char.{Char, code}
use rustdesk_managed_directo.Common.{
  ℕ, String, ◌<>◌, Bool, true, false, not, ◌&&◌, ◌||◌, Option, none, some, List, [], ◌∷◌, ◌==◌,
  str_eq, if◌then◌else◌, is_null, coalesce, same_text, update_where, find_where,
}
use rustdesk_managed_directo.Http.{
  Tx, Reply, accepted, pure, raise, gets, modify, internal_error, ◌>>=◌, ◌>>◌,
}
use rustdesk_managed_directo.Store.{Device, JobKind, keyupdate, Job, Passport, Db}
use rustdesk_managed_directo.Store.Queries.{get_device}

-- The claims inside a passport, each as `body.get` answers it for a text.
pub record Body : Type 0 where
  pub idk : Option String
  pub rid : Option String
  pub did : Option String
  pub serial : Option String

-- What is taken from outside: json.loads(_unb64(part)) where it is a dict, base64.urlsafe_b64encode
-- of a key without "=", and str of a UUID.
pub record Codec : Type 0 where
  pub read_body : String → Option Body
  pub encode_key : String → String
  pub show_id : ℕ → String

-- `JobResult`
pub record JobResult : Type 0 where
  pub id : ℕ
  pub ok : Bool
  pub passport : Option String
  pub serial : Option String
  pub idk : Option String

abbrev to_head : Char → List String → List String
to_head c [] = String.◌∷◌ c "" ∷ []
to_head c (s ∷ rest) = String.◌∷◌ c s ∷ rest

-- text.split(".")
unfoldable pub split_dots : String → List String
split_dots String.[] = "" ∷ []
split_dots (String.◌∷◌ c s) =
    let rest = split_dots s in if code c == b'.' then "" ∷ rest else to_head c rest

-- The part with the body: `parts[3]`, if there are five parts and the first is "rdcp1".
abbrev body_part : List String → Option String
body_part (version ∷ _ ∷ _ ∷ part ∷ _ ∷ []) = if str_eq version "rdcp1" then some part else none
body_part _ = none

abbrev read_part : Codec → Option String → Option Body
read_part codec none = none
read_part codec (some part) = codec.read_body part

unfoldable pub read_passport : Codec → Option String → Option Body
unfolding split_dots
read_passport codec passport =
    read_part codec (body_part (split_dots (elim passport [ none ↦ "" | some p ↦ p ])))

-- The key, the RustDesk ID and the id that the directory has on file.
pub record OnFile : Type 0 where
  pub key : Option String
  pub rid : Option String
  pub did : Option String

-- Python's `not text`.
abbrev pub is_blank : Option String → Bool
is_blank none = true
is_blank (some t) = str_eq t ""

abbrev on_file_of : Codec → Option Device → OnFile
on_file_of codec none = record { key = none; rid = none; did = none }
on_file_of codec (some d) = record {
  key =
      if is_blank d.identity_public_key && not (str_eq d.device_public_key "")
      then some (codec.encode_key d.device_public_key)
      else d.identity_public_key;
  rid = some d.rustdesk_id;
  did = some (codec.show_id d.id);
}

unfoldable pub on_file_key : Codec → ℕ → List Device → OnFile
on_file_key codec id devices = on_file_of codec (get_device devices id)

abbrev pub is_keyupdate : JobKind → Bool
is_keyupdate keyupdate = true
is_keyupdate _ = false

-- Python's `a != b` on values that may be None.
abbrev pub differs : Option String → Option String → Bool
differs none none = false
differs none (some b) = true
differs (some a) none = true
differs (some a) (some b) = not (str_eq a b)

-- The key that a result has to be for.
abbrev pub expected_key : Job → OnFile → Option String
expected_key job file = if is_keyupdate job.kind then job.expected_idk else file.key

abbrev pub body_mismatch : Option String → OnFile → JobResult → Option Body → Option String
body_mismatch expected file r none = some "malformed passport"
body_mismatch expected file r (some body) =
    if differs body.idk expected
    then some "passport key differs from the key RDS verified"
    else if differs body.rid file.rid || differs body.did file.did
    then some "passport is for another device"
    else if not (is_null r.serial) && differs body.serial r.serial
    then some "passport serial differs from the result"
    else none

-- `passport_mismatch`: why a result cannot be taken.
unfoldable pub passport_mismatch : Codec → Job → OnFile → JobResult → Option String
unfolding read_passport
passport_mismatch codec job file r =
    if is_blank (expected_key job file)
    then some
        (if is_keyupdate job.kind then "key update was not verified by RDS" else "no key on file")
    else if not (is_null r.idk) && differs r.idk (expected_key job file)
    then some "result key differs from the key RDS verified"
    else body_mismatch (expected_key job file) file r (read_passport codec r.passport)

-- UPDATE ca_jobs SET done_at = now(), ok = … WHERE id = …
unfoldable pub close_job : ℕ → Bool → List Job → List Job
close_job id ok jobs =
    update_where (λ j. j.id == id) (λ j. record j { is_done = true; ok = some ok }) jobs

-- The columns that a passport sets, with the key that the directory verified for a key update.
abbrev pub take_passport : Job → JobResult → Device → Device
take_passport job r d = record d {
  passport_serial = r.serial;
  identity_public_key =
      if is_keyupdate job.kind
      then coalesce job.expected_idk d.identity_public_key
      else d.identity_public_key;
  key_protection =
      if is_keyupdate job.kind
      then coalesce job.expected_prot d.key_protection
      else d.key_protection;
}

-- INSERT … ON CONFLICT (serial) DO NOTHING
unfoldable pub insert_passport : String → ℕ → Job → JobResult → List Passport → List Passport
insert_passport serial device_id job r passports =
    if is_null (find_where (λ p. str_eq p.serial serial) passports)
    then record {
      serial = serial;
      device_id = device_id;
      kind = job.kind;
      passport = elim r.passport [ none ↦ "" | some p ↦ p ];
      job_id = r.id;
    }
      ∷ passports
    else passports

-- The two statements for a passport that is taken; the column serial is NOT NULL.
unfoldable pub keep_passport : ℕ → Job → JobResult → Option String → Tx Db (Unit {0})
unfolding insert_passport
keep_passport device_id job r none =
    raise (internal_error "null value in column serial of device_passports")
keep_passport device_id job r (some serial) = modify (λ db. record db {
  passports = insert_passport serial device_id job r db.passports;
  devices = update_where (λ d. d.id == device_id) (take_passport job r) db.devices;
})

unfoldable pub judge : ℕ → Job → JobResult → Option String → Tx Db (Unit {0})
unfolding keep_passport close_job
judge device_id job r (some problem) =
    modify (λ db. record db { jobs = close_job r.id false db.jobs })
judge device_id job r none = keep_passport device_id job r r.serial

unfoldable pub take_result : Codec → JobResult → Job → Option ℕ → Tx Db (Unit {0})
unfolding judge
take_result codec r job none = pure tt
take_result codec r job (some device_id) = if not r.ok || is_blank r.passport then pure tt else (do
  problem ← gets (λ db. passport_mismatch codec job (on_file_key codec device_id db.devices) r)
  judge device_id job r problem)

unfoldable pub post_result : Codec → JobResult → Option Job → Tx Db (Unit {0})
unfolding take_result close_job
post_result codec r none = pure tt
post_result codec r (some job) = do
  modify (λ db. record db { jobs = close_job r.id r.ok db.jobs })
  take_result codec r job job.device_id

unfoldable pub post_all : Codec → List JobResult → Tx Db (Unit {0})
unfolding post_result
post_all codec [] = pure tt
post_all codec (r ∷ results) = do
  job ← gets (λ db. find_where (λ j. j.id == r.id && not j.is_done) db.jobs)
  post_result codec r job
  post_all codec results

-- `post_results`
unfoldable pub post_results : Codec → List JobResult → Tx Db (Reply (Unit {0}))
post_results codec results = do post_all codec results; pure (accepted tt)
