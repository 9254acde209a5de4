-- ===== src/Passports/Keys.antt =====
-- The two-box rule: the certificate authority alone cannot give a device another key.
use rustdesk_managed_directo.Common.{
  ℕ, String, ◌≡◌, refl, sym, ◌∙◌, Bool, true, false, Option, none, some, List, [], ◌∷◌, ◌==◌, arith,
  inl, inr, Bool-cases, Option-cases, if◌then◌else◌, All, All-find_where, All-update_where,
  update_where,
}
use rustdesk_managed_directo.Http.{commit, modify}
use rustdesk_managed_directo.Http.Keeps.{
  Keeps, Hoare-bind, Hoare-gets, Keeps-pure, Keeps-raise, Keeps-gets, Keeps-modify, Keeps-if,
  commit-keeps,
}
use rustdesk_managed_directo.Store.{Device, Job, Db}
use rustdesk_managed_directo.Store.Queries.{get_device}
use rustdesk_managed_directo.Store.View.{on_device, get_device-update}
use rustdesk_managed_directo.Passports.{
  Codec, JobResult, is_keyupdate, close_job, take_passport, keep_passport, judge, take_result,
  post_result, post_all, post_results,
}

module _ (Good : ℕ → String → Type 0) where
  -- The key that the job's key update was verified for is good for its device.
  abbrev pub GoodJob : Job → Type 0
  GoodJob j =
      is_keyupdate j.kind ≡ true
      → (k : ℕ) (key : String) → j.device_id ≡ some k
      → j.expected_idk ≡ some key
      → Good k key

  abbrev GoodRow : ℕ → Option Device → Type 0
  GoodRow k none = Unit
  GoodRow k (some d) = (key : String) → d.identity_public_key ≡ some key → Good k key

  -- Every queued key update, and the identity key of every device, is good.
  abbrev pub GoodKeys : Db → Type 0
  GoodKeys db = All GoodJob db.jobs × ((k : ℕ) → GoodRow k (get_device db.devices k))

  close_job-Good :
      (id : ℕ) (ok : Bool) (jobs : List Job) → All GoodJob jobs → All GoodJob (close_job id ok jobs)
  unfolding close_job
  close_job-Good id ok = All-update_where _ _ (λ j g e. g) (λ j g e. g)

  close-Keeps :
      (id : ℕ) (ok : Bool)
      → Keeps GoodKeys (modify (λ db. record db { jobs = close_job id ok db.jobs }))
  close-Keeps id ok = Keeps-modify _ λ s h. (close_job-Good id ok s.jobs h.0, h.1)

  taken_key :
      (job : Job) (r : JobResult) (d : Device) (k : ℕ)
      → GoodJob job
      → job.device_id ≡ some k
      → GoodRow k (some d)
      → GoodRow k (some (take_passport job r d))
  taken_key job r d k g mine old key e = elim (Bool-cases (is_keyupdate job.kind)) [
    | inr other ↦ old key (rw other at e)
    | inl update ↦ elim (Option-cases job.expected_idk) [
      | inl off ↦ old key (rw (update, off) at e)
      | inr (key2, on) ↦
          let q : some key2 ≡ some key = (rw (update, on) at e) in
          let same : key2 ≡ key = cc q in g update k key mine (rw (on, same) refl)
    ]
  ]

  taken_row :
      (job : Job) (r : JobResult) (id k : ℕ) (devices : List Device)
      → GoodJob job
      → job.device_id ≡ some id
      → GoodRow k (get_device devices k)
      → GoodRow k (get_device (update_where (λ d. d.id == id) (take_passport job r) devices) k)
  taken_row job r id k devices g mine old =
      rw (get_device-update devices id k (take_passport job r) (λ d. refl))
        (go (id == k) refl (get_device devices k) old)
    where
      go :
          (b : Bool)
          → (id == k) ≡ b
          → (o : Option Device) → GoodRow k o
          → GoodRow k (if b then on_device (take_passport job r) o else o)
      go false e o h = h
      go true e none h = tt
      go true e (some d) h =
          let same : id ≡ k = ground arith in taken_key job r d k g (rw (← same) mine) h

  keep_passport-Good :
      (id : ℕ) (job : Job) (r : JobResult) (serial : Option String)
      → GoodJob job
      → job.device_id ≡ some id
      → Keeps GoodKeys (keep_passport id job r serial)
  unfolding keep_passport
  keep_passport-Good id job r none g mine = Keeps-raise _
  keep_passport-Good id job r (some serial) g mine =
      Keeps-modify _ λ s h. (h.0, λ k. taken_row job r id k s.devices g mine (h.1 k))

  judge-Good :
      (id : ℕ) (job : Job) (r : JobResult) (problem : Option String)
      → GoodJob job
      → job.device_id ≡ some id
      → Keeps GoodKeys (judge id job r problem)
  unfolding judge
  judge-Good id job r (some problem) g mine = close-Keeps r.id false
  judge-Good id job r none g mine = keep_passport-Good id job r r.serial g mine

  take_result-Good :
      (codec : Codec) (r : JobResult) (job : Job) (o : Option ℕ)
      → GoodJob job
      → job.device_id ≡ o
      → Keeps GoodKeys (take_result codec r job o)
  unfolding take_result
  take_result-Good codec r job none g mine = Keeps-pure _
  take_result-Good codec r job (some id) g mine =
      Keeps-if _ _ _ (Keeps-pure _)
        (Hoare-bind _ _ (Keeps-gets _) λ problem. judge-Good id job r problem g mine)

  post_result-Good :
      (codec : Codec) (r : JobResult) (o : Option Job)
      → ((job : Job) → o ≡ some job → GoodJob job)
      → Keeps GoodKeys (post_result codec r o)
  unfolding post_result
  post_result-Good codec r none g = Keeps-pure _
  post_result-Good codec r (some job) g =
      Hoare-bind _ _ (close-Keeps r.id r.ok)
        λ _. take_result-Good codec r job job.device_id (g job refl) refl

  post_all-Good :
      (codec : Codec) (results : List JobResult) → Keeps GoodKeys (post_all codec results)
  unfolding post_all
  post_all-Good codec [] = Keeps-pure _
  post_all-Good codec (r ∷ results) = Hoare-bind _ _ (Hoare-gets {P = GoodKeys} _) λ job.
      Hoare-bind {Q = λ _ s. GoodKeys s} _ _
        (record {
          at = λ s h.
              (post_result-Good codec r job
                  (λ j e. All-find_where GoodJob _ s.jobs h.0.0 (sym h.1 ∙ e))).at
                s h.0;
        })
        λ _. post_all-Good codec results

-- Whatever results the certificate authority posts, every property of identity keys that the keys on
-- file and the keys of the key updates which the directory itself queued have, the keys on file have
-- afterwards: no other key gets on file.
pub post_results-Good :
    (Good : ℕ → String → Type 0) (codec : Codec) (results : List JobResult) (db : Db)
    → GoodKeys Good db
    → GoodKeys Good (commit (post_results codec results) db).1
unfolding post_results
post_results-Good Good codec results db h =
    commit-keeps _
      (Hoare-bind _ _ (post_all-Good Good codec results) λ _. Keeps-pure {P = GoodKeys Good} _) db h
