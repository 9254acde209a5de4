-- ===== src/Files/Swept.antt =====
-- A late enough sweep leaves no drop, whatever came before it.
use rustdesk_managed_directo.Common.{
  ℕ, String, ◌≡◌, ◌+◌, ◌*◌, Bool, true, false, not, ◌&&◌, ◌||◌, Option, none, some, List, [], ◌∷◌,
  arith, ltb, All,
}
use rustdesk_managed_directo.Common.Picks.{All-select, select-none, All-zip}
use rustdesk_managed_directo.Http.{Tx, Outcome, done, raised, ◌>>=◌}
use rustdesk_managed_directo.Http.Keeps.{
  Ends, Returns, Keeps, Keeps-pure, Keeps-gets, Keeps-modify, Keeps-raise_if, Keeps-bind,
}
use rustdesk_managed_directo.Store.Rules.{Keeps-found}
use rustdesk_managed_directo.Files.{DropStatus, Drop, Files, Reading, is_uploading, is_failed}
use rustdesk_managed_directo.Files.Settings.{stuck_days, SettingsRequest, set_filedrop_settings}
use rustdesk_managed_directo.Files.Drops.{
  register_device, decline_drop, fetch_drop, is_expired, sweep_expired_drops,
}
use rustdesk_managed_directo.Files.Expiry.{
  is_perishable, Perishable, get_int-Keeps, fail-Keeps, end_whole-Keeps, end_part-Keeps,
  download-Keeps, create-Keeps, complete_drop-Keeps,
}
use rustdesk_managed_directo.Files.Steps.{
  Step, register, create, end_whole, end_part, fail, download, confirm, decline, sweep, configure,
  files_after, step, steps,
}

-- The end, if there is one, and the time that an upload may be stuck for have passed.
abbrev pub is_over : ℕ → ℕ → ℕ → Option ℕ → Bool
is_over now stuck updated none = ltb (updated + stuck) now
is_over now stuck updated (some t) = ltb (updated + stuck) now && ltb t now

decline_drop-Keeps : (id self : ℕ) → Keeps Perishable (decline_drop id self)
unfolding decline_drop fetch_drop
decline_drop-Keeps id self = Keeps-bind _ _ (Keeps-found Perishable _ _) λ drop.
    Keeps-bind _ _ (Keeps-raise_if _ _) λ _.
      Keeps-bind _ _ (Keeps-modify _ (λ files h. All-select _ _ files.drops h)) λ _. Keeps-pure _

module _ (reading : Reading) where
  register-Keeps :
      (now self : ℕ) (key : String) (capabilities : List String)
      → Keeps Perishable (register_device reading now self key capabilities)
  unfolding register_device
  register-Keeps now self key capabilities = Keeps-modify _ (λ files h. h)

  configure-Keeps : (updates : SettingsRequest) → Keeps Perishable (set_filedrop_settings updates)
  unfolding set_filedrop_settings
  configure-Keeps updates = Keeps-modify _ (λ files h. h)

  sweep-Keeps : (now : ℕ) → Keeps Perishable (sweep_expired_drops reading now)
  unfolding sweep_expired_drops
  sweep-Keeps now = Keeps-bind _ _ (get_int-Keeps reading Perishable _ _) λ days.
      Keeps-bind _ _ (Keeps-gets _) λ expired.
        Keeps-bind _ _ (Keeps-modify _ (λ files h. All-select _ _ files.drops h)) λ _. Keeps-pure _

files_after-holds :
    {A : Type 0} (P : Files → Type 0) (files : Files) (m : Tx Files A)
    → Keeps P m
    → P files
    → P (files_after files (m files))
files_after-holds {A} P files m k h = go (m files) (k.at files h)
  where
    go : (o : Outcome Files A) → Ends (λ _ t. P t) o → P (files_after files o)
    go (done a t) e = e
    go (raised e) q = h

module _ (reading : Reading) where
  step-Perishable :
      (s : Step) (files : Files) → Perishable files → Perishable (step reading s files)
  unfolding step
  step-Perishable (register now self key capabilities) files h =
      files_after-holds Perishable files _ (register-Keeps reading now self key capabilities) h
  step-Perishable (create id key now self recipient filename size public_key) files h =
      files_after-holds Perishable files _
        (create-Keeps reading id key now self recipient filename size public_key) h
  step-Perishable (end_whole now id reply) files h =
      files_after-holds Perishable files _ (end_whole-Keeps reading now id reply) h
  step-Perishable (end_part now id reply) files h =
      files_after-holds Perishable files _ (end_part-Keeps reading now id reply) h
  step-Perishable (fail now id) files h =
      files_after-holds Perishable files _ (fail-Keeps reading now id) h
  step-Perishable (download now id self range) files h =
      files_after-holds Perishable files _ (download-Keeps reading now id self range) h
  step-Perishable (confirm now id self) files h =
      files_after-holds Perishable files _ (complete_drop-Keeps now id self) h
  step-Perishable (decline id self) files h =
      files_after-holds Perishable files _ (decline_drop-Keeps id self) h
  step-Perishable (sweep now) files h =
      files_after-holds Perishable files _ (sweep-Keeps reading now) h
  step-Perishable (configure updates) files h =
      files_after-holds Perishable files _ (configure-Keeps reading updates) h

  steps-Perishable :
      (ss : List Step) (files : Files) → Perishable files → Perishable (steps reading ss files)
  unfolding steps
  steps-Perishable [] files h = h
  steps-Perishable (s ∷ ss) files h =
      steps-Perishable ss (step reading s files) (step-Perishable s files h)

  -- A drop that is perishable is swept when it is over and its last change is long past.
  perishable-expired :
      (now stuck : ℕ) (d : Drop)
      → is_perishable d.status d.expires_at ≡ true
      → is_over now stuck d.updated_at d.expires_at ≡ true
      → not (is_expired now stuck d) ≡ false
  unfolding is_expired
  perishable-expired now stuck d p late = go d.status d.expires_at p late
    where
      go :
          (s : DropStatus) (x : Option ℕ)
          → is_perishable s x ≡ true
          → is_over now stuck d.updated_at x ≡ true
          → not (
              (elim x [ none ↦ false | some t ↦ ltb t now ])
              || ((is_uploading s || is_failed s) && ltb (d.updated_at + stuck) now))
            ≡ false
      go s x p late = ground (arith, p, late)

  -- From drops of which none is declined and each has an end or is uploading or failed, and whatever
  -- transactions came before, in whatever order, a sweep whose setting can be read leaves no drop if it
  -- runs after the end of every drop that has one and later after every drop's last change than an
  -- upload may be stuck for.
  pub steps-swept :
      (ss : List Step) (files : Files) (now days : ℕ)
      → Perishable files
      → stuck_days reading (steps reading ss files) ≡ done days (steps reading ss files)
      → All
          (λ d. is_over now (days * 86400) d.updated_at d.expires_at ≡ true)
          (steps reading ss files).drops
      → Returns
          (λ removed t. t.drops ≡ [])
          (sweep_expired_drops reading now (steps reading ss files))
  unfolding sweep_expired_drops ◌>>=◌
  steps-swept ss files now days h setting late = rw setting (
      select-none _ (steps reading ss files).drops (
        All-zip _ _ _ (λ d p q. perishable-expired now (days * 86400) d p q)
          (steps reading ss files).drops (steps-Perishable ss files h) late))
