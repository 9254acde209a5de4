-- ===== src/Passports/Mismatch.antt =====
-- What the check of a result has made sure of when it finds no mismatch.
use rustdesk_managed_directo.Common.{
  String, ◌≡◌, refl, ap, Bool, true, false, not, ◌&&◌, ◌||◌, ◌⊎◌, Option, none, some, str_eq_iff,
  arith, inl, inr, Bool-cases, if◌then◌else◌, is_null,
}
use rustdesk_managed_directo.Store.{Job}
use rustdesk_managed_directo.Passports.{
  Body, Codec, JobResult, OnFile, is_blank, differs, expected_key, body_mismatch, read_passport,
  passport_mismatch,
}

differs-eq : (a b : Option String) → differs a b ≡ false → a ≡ b
differs-eq none none h = refl
differs-eq none (some b) h = cc
differs-eq (some a) none h = cc
differs-eq (some a) (some b) h = ap some ((str_eq_iff a b).0 (ground arith))

-- The passport is one for the key that the directory expects, of the device on file.
pub record Matches (codec : Codec) (job : Job) (file : OnFile) (r : JobResult) : Type 0 where
  pub expected : is_blank (expected_key job file) ≡ false
  pub field : (is_null r.idk ≡ true) ⊎ (r.idk ≡ expected_key job file)
  pub body : Body
  pub reads : read_passport codec r.passport ≡ some body
  pub key : body.idk ≡ expected_key job file
  pub rid : body.rid ≡ file.rid
  pub did : body.did ≡ file.did
  pub serial : (is_null r.serial ≡ true) ⊎ (body.serial ≡ r.serial)

either :
    (a b : Option String) → (not (is_null a) && differs b a) ≡ false → (is_null a ≡ true) ⊎ (b ≡ a)
either none b h = inl refl
either (some a) b h = inr (differs-eq b (some a) (ground arith))

either_field :
    (a b : Option String) → (not (is_null a) && differs a b) ≡ false → (is_null a ≡ true) ⊎ (a ≡ b)
either_field none b h = inl refl
either_field (some a) b h = inr (differs-eq (some a) b (ground arith))

-- A chain of refusals that refuses nothing.
passed :
    (a b c : Bool) (s t u : String)
    → (if a then some s else if b then some t else if c then some u else none) ≡ none
    → (a ≡ false) × (b ≡ false) × (c ≡ false)
passed true b c s t u h = cc
passed false true c s t u h = cc
passed false false true s t u h = cc
passed false false false s t u h = (refl, refl, refl)

neither : (a b : Bool) → (a || b) ≡ false → (a ≡ false) × (b ≡ false)
neither a b h = (ground arith, ground arith)

body-Matches :
    (codec : Codec) (job : Job) (file : OnFile) (r : JobResult) (o : Option Body)
    → read_passport codec r.passport ≡ o
    → is_blank (expected_key job file) ≡ false
    → (not (is_null r.idk) && differs r.idk (expected_key job file)) ≡ false
    → body_mismatch (expected_key job file) file r o ≡ none
    → Matches codec job file r
body-Matches codec job file r none was key_there field h = cc
body-Matches codec job file r (some body) was key_there field h =
    let p = passed _ _ _ _ _ _ h in
    let n = neither _ _ p.1 in
    record {
      expected = key_there;
      field = either_field r.idk (expected_key job file) field;
      body = body;
      reads = was;
      key = differs-eq _ _ p.0;
      rid = differs-eq _ _ n.0;
      did = differs-eq _ _ n.1;
      serial = either r.serial body.serial p.2;
    }

-- If the check finds no mismatch, there is a key to expect: for a key update the one that the
-- directory verified, otherwise the one on file; the passport can be read, and it and the result are
-- for this key, for the RustDesk ID and the id of the device on file, and agree on the serial.
pub passport_mismatch-Matches :
    (codec : Codec) (job : Job) (file : OnFile) (r : JobResult)
    → passport_mismatch codec job file r ≡ none
    → Matches codec job file r
unfolding passport_mismatch
passport_mismatch-Matches codec job file r h =
    elim (Bool-cases (is_blank (expected_key job file))) [
      | inl blank ↦ let q : some _ ≡ none = (rw (passport_mismatch, blank) at h) in cc q
      | inr there ↦
          elim (Bool-cases (not (is_null r.idk) && differs r.idk (expected_key job file))) [
            | inl other ↦
                let q : some _ ≡ none = (rw (passport_mismatch, there, other) at h) in cc q
            | inr same ↦
                body-Matches codec job file r _ refl there same
                  (rw (passport_mismatch, there, same) at h)
          ]
    ]
