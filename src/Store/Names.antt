-- ===== src/Store/Names.antt =====
-- The friendly names that rows reserve, and what the check of a name says of them.
use rustdesk_managed_directo.Common.{
  ℕ, String, ◌≡◌, refl, sym, ap, subst, ◌∙◌, Bool, true, false, not, ◌&&◌, Option, none, some, List,
  ◌∷◌, ◌==◌, arith, inl, inr, str_eq, str_eq_iff, if◌then◌else◌, find_where, find_where_complete,
  All-find_where, Bool-cases, update_where,
}
use rustdesk_managed_directo.Store.{Status, Device, Db, reserves_name}
use rustdesk_managed_directo.Store.Env.{Env}
use rustdesk_managed_directo.Store.Queries.{get_device, name_taken, reserves}
use rustdesk_managed_directo.Store.View.{KeepsId, on_device, get_device-update, id-get_device}
use rustdesk_managed_directo.Store.Keyed.{Keyed}
use rustdesk_managed_directo.Store.Phases.{Ready}

module _ (env : Env) where
  -- A name as the handlers store it: stripped, and not empty.
  abbrev pub is_clean : String → Bool
  is_clean n = str_eq (env.strip n) n && not (str_eq n "")

  -- The name that a row of this status keeps from others, trimmed and in lower case.
  abbrev pub claim : Status → Option String → Option String
  claim s none = none
  claim s (some n) = if reserves_name s && is_clean n then some (env.lower_btrim n) else none

  abbrev pub claim_of : Option Device → Option String
  claim_of none = none
  claim_of (some d) = claim d.status d.friendly_name

  unfoldable pub name_at : List Device → ℕ → Option String
  name_at devices k = claim_of (get_device devices k)

  -- Two ids with the same reserved name are one.
  abbrev pub NamesApart : List Device → Type 0
  NamesApart devices =
      (j k : ℕ) (n : String) → name_at devices j ≡ some n → name_at devices k ≡ some n → j ≡ k

  -- One row changes, to a name that no other row reserves.
  pub NamesApart-change :
      (old new : List Device) (j : ℕ)
      → ((k : ℕ) → ¬ (j ≡ k) → name_at new k ≡ name_at old k)
      → ((n : String) (k : ℕ) → name_at new j ≡ some n → name_at old k ≡ some n → j ≡ k)
      → NamesApart old
      → NamesApart new
  NamesApart-change old new j same free apart a b n ha hb = elim (Bool-cases (j == a)) [
    | inl ja ↦ elim (Bool-cases (j == b)) [
      | inl jb ↦ ground arith
      | inr jb ↦
          let q : j ≡ a = ground arith in
          let p : name_at new j ≡ some n = rw q ha in
          let r : j ≡ b = free n b p (sym (same b (λ e. ground arith)) ∙ hb) in ground arith
    ]
    | inr ja ↦ elim (Bool-cases (j == b)) [
      | inl jb ↦
          let q : j ≡ b = ground arith in
          let p : name_at new j ≡ some n = rw q hb in
          let r : j ≡ a = free n a p (sym (same a (λ e. ground arith)) ∙ ha) in ground arith
      | inr jb ↦
          apart a b n (sym (same a (λ e. ground arith)) ∙ ha)
            (sym (same b (λ e. ground arith)) ∙ hb)
    ]
  ]

  pub name_at-update :
      (devices : List Device) (j k : ℕ) (f : Device → Device)
      → KeepsId f
      → name_at (update_where (λ d. d.id == j) f devices) k
        ≡ (if j == k then claim_of (on_device f (get_device devices k)) else name_at devices k)
  unfolding name_at
  name_at-update devices j k f h =
      rw (get_device-update devices j k f h)
        (elim (Bool-cases (j == k)) [ inl e ↦ rw e refl | inr e ↦ rw e refl ])

  name_at-insert :
      (d : Device) (devices : List Device) (k : ℕ)
      → name_at (d ∷ devices) k
        ≡ (if d.id == k then claim d.status d.friendly_name else name_at devices k)
  unfolding name_at get_device find_where
  name_at-insert d devices k = elim (Bool-cases (d.id == k)) [
    | inl e ↦ rw e refl
    | inr e ↦ rw e refl
  ]

  pub claim-tells :
      (s : Status) (m n : String)
      → claim s (some m) ≡ some n
      → (reserves_name s ≡ true)
        × (env.strip m ≡ m)
        × (str_eq m "" ≡ false)
        × (env.lower_btrim m ≡ n)
  claim-tells s m n h = elim (Bool-cases (reserves_name s && is_clean m)) [
    | inr off ↦ let k : none ≡ some n = (rw off at h) in cc k
    | inl on ↦
        let k : some (env.lower_btrim m) ≡ some n = (rw on at h) in
        (ground arith, (str_eq_iff (env.strip m) m).0 (ground arith), ground arith, cc k)
  ]

  abbrev pub Excluded : Option ℕ → ℕ → Type 0
  Excluded none k = ⊥
  Excluded (some j) k = j ≡ k

  left_over :
      (a b : Bool) (x : Option ℕ) (id : ℕ)
      → a ≡ true
      → b ≡ true
      → (a && b && (elim x as (λ _. Bool) [ none ↦ true | some j ↦ not (id == j) ])) ≡ false
      → Excluded x id
  left_over a b none id ha hb h = ground arith
  left_over a b (some j) id ha hb h = ground arith

  reserves-claim :
      (m n : String) (exclude : Option ℕ) (s : Status) (d : Device)
      → claim s (some m) ≡ some n
      → claim d.status d.friendly_name ≡ some n
      → reserves env (env.strip m) exclude d ≡ false
      → Excluded exclude d.id
  unfolding reserves
  reserves-claim m n exclude s d mine other free = go d.friendly_name refl
    where
      go : (o : Option String) → d.friendly_name ≡ o → Excluded exclude d.id
      go none e = let k : none ≡ some n = (rw e at other) in cc k
      go (some m2) e =
          let t = claim-tells s m n mine in
          let u = claim-tells d.status m2 n (rw e at other) in
          let same : str_eq (env.lower_btrim m2) (env.lower_btrim (env.strip m)) ≡ true =
            (str_eq_iff _ _).1 (u.3 ∙ sym (t.3) ∙ ap env.lower_btrim (sym t.1)) in
          left_over _ _ exclude d.id same u.0 (rw e at free)

  free_of :
      (m : String) (exclude : Option ℕ) (devices : List Device)
      → name_taken env (some m) exclude devices ≡ false
      → str_eq (env.strip m) "" ≡ false
      → find_where (reserves env (env.strip m) exclude) devices ≡ none
  unfolding name_taken
  free_of m exclude devices free nonblank = ground arith

  -- What the query of `ensure_friendly_name_available` rules out.
  not_reserved :
      (devices : List Device) (m n : String) (exclude : Option ℕ) (s : Status) (k : ℕ) (d : Device)
      → name_taken env (some m) exclude devices ≡ false
      → claim s (some m) ≡ some n
      → get_device devices k ≡ some d
      → claim d.status d.friendly_name ≡ some n
      → Excluded exclude d.id
  unfolding get_device
  not_reserved devices m n exclude s k d free mine row other =
      let t = claim-tells s m n mine in
      let none_found = free_of m exclude devices free (rw t.1 t.2) in
      reserves-claim m n exclude s d mine other (
        All-find_where (λ e. reserves env (env.strip m) exclude e ≡ false) _ devices
          (find_where_complete _ devices none_found) row)

  -- The name of a row that was checked is one that no other row reserves.
  pub name_at-taken :
      (devices : List Device) (name : Option String) (exclude : Option ℕ) (to : Status) (n : String)
      (k : ℕ)
      → name_taken env name exclude devices ≡ false
      → claim to name ≡ some n
      → name_at devices k ≡ some n
      → Excluded exclude k
  unfolding name_at
  name_at-taken devices none exclude to n k free mine other = cc
  name_at-taken devices (some m) exclude to n k free mine other = go (get_device devices k) refl
    where
      go : (o : Option Device) → get_device devices k ≡ o → Excluded exclude k
      go none e = let q : none ≡ some n = (rw e at other) in cc q
      go (some d) e =
          subst (Excluded exclude) (id-get_device devices k e)
            (not_reserved devices m n exclude to k d free mine e (rw e at other))

  abbrev pub Names : Db → Type 0
  Names s = Keyed s.devices × NamesApart s.devices

  pub if_same : (j : ℕ) (a b : Option String) → (if j == j then a else b) ≡ a
  if_same j a b = ground arith

  pub free_for :
      (s : Db) (d : Device) (new : List Device) (to : Status) (name : Option String)
      → Ready env Names d name s
      → ((k : ℕ) → name_at new k ≡ (if d.id == k then claim to name else name_at s.devices k))
      → NamesApart new
  free_for s d new to name h at_new =
      NamesApart-change s.devices new d.id (λ k e. at_new k ∙ ground arith)
        (λ n k a b.
          let mine : claim to name ≡ some n = sym (if_same d.id _ _) ∙ sym (at_new d.id) ∙ a in
          name_at-taken s.devices name (some d.id) to n k h.2 mine b)
        h.0.1

  pub free_for_new :
      (s : Db) (d : Device)
      → NamesApart s.devices
      → name_taken env d.friendly_name none s.devices ≡ false
      → NamesApart (d ∷ s.devices)
  free_for_new s d apart free =
      NamesApart-change s.devices _ d.id (λ k e. name_at-insert d s.devices k ∙ ground arith)
        (λ n k a b.
          let mine : claim d.status d.friendly_name ≡ some n =
            sym (if_same d.id _ _) ∙ sym (name_at-insert d s.devices d.id) ∙ a in
          absurd (name_at-taken s.devices d.friendly_name none d.status n k free mine b))
        apart
