-- ===== src/System/Names.antt =====
-- After any requests: no two managed clients reserve the same friendly name.
use rustdesk_managed_directo.Common.{
  ℕ, String, ◌≡◌, refl, sym, ◌∙◌, Bool, true, false, Option, none, some, List, ◌∷◌, ◌==◌, arith,
  inl, inr, if◌then◌else◌, Bool-cases, update_where,
}
use rustdesk_managed_directo.Http.{Outcome, done, raised}
use rustdesk_managed_directo.Http.Keeps.{Ends, Hoare, Hoare-modify}
use rustdesk_managed_directo.Store.{Status, Device, Db, reserves_name}
use rustdesk_managed_directo.Store.Env.{Env}
use rustdesk_managed_directo.Store.Queries.{get_device, name_taken}
use rustdesk_managed_directo.Store.Triggers.{update_status, insert_device}
use rustdesk_managed_directo.Store.View.{KeepsId, on_device}
use rustdesk_managed_directo.Store.Keyed.{Keyed, Keyed-update, Keyed-insert}
use rustdesk_managed_directo.Store.Names.{
  claim, claim_of, name_at, NamesApart, NamesApart-change, name_at-update, Names, if_same, free_for,
  free_for_new,
}
use rustdesk_managed_directo.Store.Phases.{Phases, Ready, Touches}
use rustdesk_managed_directo.Store.Rules.{Locked}
use rustdesk_managed_directo.Store.Rows.{
  SetsStatus, update_status-SetsStatus, insert_device-devices, credential_of-devices,
}

module _ (env : Env) where
  -- The names after an UPDATE of the locked row.
  updated :
      (devices : List Device) (d : Device) (f : Device → Device) (to : Status)
      (name : Option String)
      → get_device devices d.id ≡ some d
      → KeepsId f
      → (f d).status ≡ to
      → (f d).friendly_name ≡ name
      → (k : ℕ)
      → name_at env (update_where (λ e. e.id == d.id) f devices) k
        ≡ (if d.id == k then claim env to name else name_at env devices k)
  updated devices d f to name row keeps s n k =
      name_at-update env devices d.id k f keeps ∙ go (d.id == k) refl
    where
      go :
          (b : Bool)
          → (d.id == k) ≡ b
          → (if b then claim_of env (on_device f (get_device devices k)) else name_at env devices k)
            ≡ (if b then claim env to name else name_at env devices k)
      go false e = refl
      go true e =
          let same : k ≡ d.id = ground arith in
          let here : get_device devices k ≡ some d = rw same row in rw (here, s, n) refl

  -- An UPDATE that checked the name.
  named :
      (s : Db) (d : Device) (f : Device → Device) (to : Status) (name : Option String)
      (new : List Device)
      → Ready env (Names env) d name s
      → KeepsId f
      → (f d).status ≡ to
      → (f d).friendly_name ≡ name
      → new ≡ update_where (λ e. e.id == d.id) f s.devices
      → Keyed new × NamesApart env new
  named s d f to name new h keeps st n e = (
    rw e (Keyed-update s.devices d.id f keeps h.0.0),
    free_for env s d new to name h (λ k. rw e (updated s.devices d f to name h.1 keeps st n k)),
  )

  keeps_claim :
      (from to : Status) (name : Option String) (n : String)
      → (reserves_name to ≡ true → reserves_name from ≡ true)
      → claim env to name ≡ some n
      → claim env from name ≡ some n
  keeps_claim from to none n r h = cc
  keeps_claim from to (some m) n r h = elim (Bool-cases (reserves_name to)) [
    | inl on ↦ let q = r on in rw q (rw on at h)
    | inr off ↦ let q : none ≡ some n = (rw off at h) in cc q
  ]

  old_name :
      (s : Db) (d : Device) (m : String)
      → get_device s.devices d.id ≡ some d
      → claim env d.status d.friendly_name ≡ some m
      → name_at env s.devices d.id ≡ some m
  unfolding name_at
  old_name s d m row c = rw row c

  -- An UPDATE that leaves the name alone, to a status that reserves no more than the old one.
  plain :
      (s : Db) (d : Device) (f : Device → Device) (to : Status) (new : List Device)
      → Locked (Names env) d.id d s
      → (reserves_name to ≡ true → reserves_name d.status ≡ true)
      → KeepsId f
      → (f d).status ≡ to
      → (f d).friendly_name ≡ d.friendly_name
      → new ≡ update_where (λ e. e.id == d.id) f s.devices
      → Keyed new × NamesApart env new
  plain s d f to new h r keeps st n e = (
    rw e (Keyed-update s.devices d.id f keeps h.0.0),
    rw e (
        NamesApart-change env s.devices _ d.id (λ k ne. at_new k ∙ ground arith)
          (λ m k a b.
            let mine : claim env to d.friendly_name ≡ some m =
              sym (if_same env d.id _ _) ∙ sym (at_new d.id) ∙ a in
            h.0.1 d.id k m (old_name s d m h.1 (keeps_claim d.status to d.friendly_name m r mine))
              b)
          h.0.1),
  )
    where
      at_new :
          (k : ℕ)
          → name_at env (update_where (λ e. e.id == d.id) f s.devices) k
            ≡ (if d.id == k then claim env to d.friendly_name else name_at env s.devices k)
      at_new k = updated s.devices d f to d.friendly_name h.1 keeps st n k

  pub name_at-touched :
      (j : ℕ) (f : Device → Device) (devices : List Device)
      → Touches f
      → (k : ℕ) → name_at env (update_where (λ d. d.id == j) f devices) k ≡ name_at env devices k
  unfolding name_at
  name_at-touched j f devices t k =
      name_at-update env devices j k f t.id ∙ go (j == k) (get_device devices k)
    where
      go :
          (b : Bool) (o : Option Device)
          → (if b then claim_of env (on_device f o) else claim_of env o) ≡ claim_of env o
      go false o = refl
      go true none = refl
      go true (some d) = rw (t.status d, t.friendly_name d) refl

  touched :
      (j : ℕ) (f : Device → Device)
      → Touches f
      → (s : Db) → Names env s
      → Names env (record s { devices = update_where (λ d. d.id == j) f s.devices })
  touched j f t s h = (
    Keyed-update s.devices j f t.id h.0,
    λ a b n ha hb.
        h.1 a b n (sym (name_at-touched j f s.devices t a) ∙ ha)
          (sym (name_at-touched j f s.devices t b) ∙ hb),
  )

  abbrev SetOutcome : Device → Status → (Device → Device) → Db → Outcome Db (Unit {0}) → Type 0
  SetOutcome d to change s o = Ends (λ _ t. SetsStatus d.id to change s.devices t.devices) o

  set_plain-Names :
      (d : Device) (now : ℕ) (to : Status) (reason : String) (actor : ℕ)
      → (reserves_name to ≡ true → reserves_name d.status ≡ true)
      → Hoare
          (Locked (Names env) d.id d)
          (update_status d.id now d.status to reason actor (λ e. e))
          (λ _ t. Names env t)
  set_plain-Names d now to reason actor r = record {
    at = λ s h.
        go s h _
          (update_status-SetsStatus d.id now d.status to reason actor (λ e. e) (λ e. refl) s);
  }
    where
      go :
          (s : Db)
          → Locked (Names env) d.id d s
          → (o : Outcome Db (Unit {0})) → SetOutcome d to (λ e. e) s o
          → Ends (λ _ t. Names env t) o
      go s h (raised e) c = tt
      go s h (done a t) c =
          plain s d c.row to t.devices h r c.keeps (c.status d) (c.friendly_name d) c.devices

  set_named-Names :
      (d : Device) (now : ℕ) (to : Status) (reason : String) (actor : ℕ) (f : Device → Device)
      (name : Option String)
      → KeepsId f
      → ((f d).friendly_name ≡ name)
      → Hoare
          (Ready env (Names env) d name)
          (update_status d.id now d.status to reason actor f)
          (λ _ t. Names env t)
  set_named-Names d now to reason actor f name keeps n = record {
    at = λ s h. go s h _ (update_status-SetsStatus d.id now d.status to reason actor f keeps s);
  }
    where
      go :
          (s : Db)
          → Ready env (Names env) d name s
          → (o : Outcome Db (Unit {0})) → SetOutcome d to f s o
          → Ends (λ _ t. Names env t) o
      go s h (raised e) c = tt
      go s h (done a t) c =
          named s d c.row to name t.devices h c.keeps (c.status d) (c.friendly_name d ∙ n) c.devices

  insert-Names :
      (d : Device)
      → Hoare
          (λ s. Names env s × (name_taken env d.friendly_name none s.devices ≡ false))
          (insert_device d)
          (λ _ t. Names env t)
  insert-Names d = record { at = λ s h. go s h _ (insert_device-devices d s) }
    where
      go :
          (s : Db)
          → Names env s × (name_taken env d.friendly_name none s.devices ≡ false)
          → (o : Outcome Db (Unit {0}))
          → Ends (λ _ t. (t.devices ≡ d ∷ s.devices) × (get_device s.devices d.id ≡ none)) o
          → Ends (λ _ t. Names env t) o
      go s h (raised e) c = tt
      go s h (done a t) c =
          rw c.0 (Keyed-insert s.devices d c.1 h.0.0, free_for_new env s d h.0.1 h.1)

  pub Names-Phases : Phases env (Names env) (Names env)
  Names-Phases = record {
    keyed = λ s h. h.0;
    weaken = λ s h. h;
    frame_pre = λ s t d c h. rw d h;
    frame_post = λ s t d c h. rw d h;
    revoke = λ p f g s h. h;
    set_plain = λ d now to reason actor m r. set_plain-Names d now to reason actor r;
    set_named = λ d now to reason actor f name keeps same m.
        set_named-Names d now to reason actor f name keeps same;
    rename = λ d name. Hoare-modify _ λ s h.
        named s d (λ e. record e { friendly_name = name }) d.status name _ h (λ e. refl) refl refl
          refl;
    touch = touched;
    insert = λ d same. insert-Names d;
    issue = credential_of-devices (λ l. Keyed l × NamesApart env l);
  }
