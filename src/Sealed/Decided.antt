-- ===== src/Sealed/Decided.antt =====
-- What comes of a decision on a network.
use rustdesk_managed_directo.Common.{
  ℕ, String, ◌≡◌, refl, sym, ap, ◌∙◌, subst, Bool, true, false, not, ◌&&◌, Option, none, some, List,
  [], ◌∷◌, ◌==◌, arith, inl, inr, ltb, if◌then◌else◌, Bool-cases, Option-cases, All, All-mono,
  exists_where, find_where, latest_where, update_where,
}
use rustdesk_managed_directo.Http.{◌>>=◌}
use rustdesk_managed_directo.Http.Keeps.{Returns}
use rustdesk_managed_directo.Sealed.{
  Outside, NetworkStatus, pending, approved, denied, Network, Inspection,
}
use rustdesk_managed_directo.Sealed.Gate.{
  Call, is_bootstrap, lacks_edge_cert, network_of, has_strict_policy, is_active_cert, gate,
}
use rustdesk_managed_directo.Sealed.Networks.{
  is_pending, address, claim_block, set_decision, decide_network,
}
use rustdesk_managed_directo.Sealed.Served.{status_of, is_served, gate-is_served}

abbrev decided : (Network → Bool) → (Network → Network) → Network → Network
decided q f m = if q m then f m else m

module _ (key : Network → ℕ) (p q : Network → Bool) (f : Network → Network) where
  abbrev Keeping : Network → Type 0
  Keeping m = (key (decided q f m) ≡ key m) × (p (decided q f m) ≡ p m)

  latest_where-All :
      (ms : List Network) (m : Network)
      → All Keeping ms
      → latest_where key p ms ≡ some m
      → Keeping m
  unfolding latest_where
  latest_where-All [] m a h = cc h
  latest_where-All (x ∷ xs) m a h = elim (Option-cases (latest_where key p xs)) [
    | inl e ↦ elim (Bool-cases (p x)) [
      | inl t ↦
          let k : some x ≡ some m = (rw (latest_where, e, t) at h) in
          let i : x ≡ m = cc k in subst Keeping i a.0
      | inr t ↦ let k : none ≡ some m = (rw (latest_where, e, t) at h) in cc k
    ]
    | inr (y, e) ↦ elim (Bool-cases (p x && not (ltb (key x) (key y)))) [
      | inl t ↦ let i : x ≡ m = ground (arith, h, e, t) in subst Keeping i a.0
      | inr t ↦
          let i : y ≡ m = ground (arith, h, e, t) in subst Keeping i (latest_where-All xs y a.1 e)
    ]
  ]

  -- The latest row after an update that keeps keys and tests is the one before, updated.
  latest_where-update :
      (ms : List Network)
      → All Keeping ms
      → latest_where key p (update_where q f ms)
        ≡ (elim (latest_where key p ms) [ none ↦ none | some m ↦ some (decided q f m) ])
  unfolding latest_where update_where
  latest_where-update [] a = refl
  latest_where-update (x ∷ xs) a = elim (Option-cases (latest_where key p xs)) [
    | inl e ↦
        let ih =
          latest_where-update xs a.1
          ∙ ap (λ (o : Option Network). elim o [ none ↦ none | some m ↦ some (decided q f m) ]) e in
        elim (Bool-cases (p x)) [
          | inl t ↦ rw (latest_where, ih, e, a.0.1, t) refl
          | inr t ↦ rw (latest_where, ih, e, a.0.1, t) refl
        ]
    | inr (y, e) ↦
        let ih =
          latest_where-update xs a.1
          ∙ ap (λ (o : Option Network). elim o [ none ↦ none | some m ↦ some (decided q f m) ]) e in
        let k = latest_where-All xs y a.1 e in
        elim (Bool-cases (p x)) [
          | inl t ↦ elim (Bool-cases (ltb (key x) (key y))) [
            | inl u ↦ rw (latest_where, ih, e, a.0.1, t, a.0.0, k.0, u) refl
            | inr u ↦ rw (latest_where, ih, e, a.0.1, t, a.0.0, k.0, u) refl
          ]
          | inr t ↦ rw (latest_where, ih, e, a.0.1, t) refl
        ]
  ]

module _ (outside : Outside) (now id : ℕ) (status : NetworkStatus) (owner cidr ip : String) where
  decide : Network → Network
  decide m = record m {
    status = status;
    cidr = cidr;
    decided_by = if is_pending status then none else some owner;
    decided_at = if is_pending status then none else some now;
  }

  decided-Keeping :
      (m : Network)
      → ((m.id == id) ≡ true → m.cidr ≡ cidr)
      → Keeping
          (λ n. outside.mask_length n.cidr)
          (λ n. outside.covers n.cidr ip)
          (λ n. n.id == id)
          decide
          m
  unfolding decide
  decided-Keeping m h = elim (Bool-cases (m.id == id)) [
    | inl e ↦
        let same : cidr ≡ m.cidr = sym (h e) in
        rw e (ap outside.mask_length same, ap (λ (r : String). outside.covers r ip) same)
    | inr e ↦ rw e (refl, refl)
  ]

  -- The network of an address, after the decision on it.
  network_of-decided :
      (ms : List Network) (m : Network)
      → All (λ n. (n.id == id) ≡ true → n.cidr ≡ cidr) ms
      → network_of outside ip ms ≡ some m
      → (m.id == id) ≡ true
      → network_of outside ip (set_decision now id status cidr owner ms) ≡ some (decide m)
  unfolding network_of set_decision decide
  network_of-decided ms m same h own =
      latest_where-update (λ n. outside.mask_length n.cidr) (λ n. outside.covers n.cidr ip)
        (λ n. n.id == id) decide ms (All-mono decided-Keeping ms same)
      ∙ rw (h, own) refl

module _ (outside : Outside) (now id : ℕ) (owner single : String) (c : Call) (device : ℕ)
    (n m : Network) (s : Inspection) where
  -- The gate's answer after a decision on the network that the address is looked up by.
  decided-gate :
      (status : NetworkStatus)
      → find_where (λ x. x.id == id) s.networks ≡ some n
      → network_of outside c.ip s.networks ≡ some m
      → (m.id == id) ≡ true
      → All (λ x. (x.id == id) ≡ true → x.cidr ≡ n.cidr) s.networks
      → outside.single c.ip ≡ some single
      → Returns
          (λ v _.
            v.allowed
            ≡ is_served status
                (has_strict_policy device s.devices)
                (is_bootstrap outside c.path)
                (lacks_edge_cert c)
                (exists_where (is_active_cert device c.now) s.certs))
          ((decide_network outside now id status address owner >>= λ _.
              gate outside c (some device))
            s)
  unfolding decide_network claim_block decide ◌>>=◌
  decided-gate status row looked_up own same addressed =
      let t = record s { networks = set_decision now id status n.cidr owner s.networks } in
      rw row (
        subst (λ b. Returns (λ v _. v.allowed ≡ b) (gate outside c (some device) t))
          (ap
            (λ (o : Option Network).
              is_served (status_of o) (has_strict_policy device s.devices)
                (is_bootstrap outside c.path) (lacks_edge_cert c)
                (exists_where (is_active_cert device c.now) s.certs))
            (network_of-decided outside now id status owner n.cidr c.ip s.networks m same looked_up
              own))
          (gate-is_served outside c device single t addressed))

  -- After an Owner denies, for its own address and not for its registered block, the network that an
  -- address is looked up by, where rows with its id have its address range, the gate refuses every call
  -- of a device with a valid credential from that address, whatever its policy, its path and its
  -- certificates.
  pub deny-refused :
      find_where (λ x. x.id == id) s.networks ≡ some n
      → network_of outside c.ip s.networks ≡ some m
      → (m.id == id) ≡ true
      → All (λ x. (x.id == id) ≡ true → x.cidr ≡ n.cidr) s.networks
      → outside.single c.ip ≡ some single
      → Returns
          (λ v _. v.allowed ≡ false)
          ((decide_network outside now id denied address owner >>= λ _.
              gate outside c (some device))
            s)
  deny-refused row looked_up own same addressed =
      decided-gate denied row looked_up own same addressed

  -- Where certificates are required and a device has none that is active, no strict policy and a call on
  -- one of the paths with which a device starts, the gate serves the call while the network that the
  -- address is looked up by is pending, and refuses the same call once an Owner has approved that
  -- network for its own address.
  pub approve-refused :
      find_where (λ x. x.id == id) s.networks ≡ some n
      → network_of outside c.ip s.networks ≡ some m
      → (m.id == id) ≡ true
      → All (λ x. (x.id == id) ≡ true → x.cidr ≡ n.cidr) s.networks
      → outside.single c.ip ≡ some single
      → m.status ≡ pending
      → has_strict_policy device s.devices ≡ false
      → is_bootstrap outside c.path ≡ true
      → lacks_edge_cert c ≡ true
      → exists_where (is_active_cert device c.now) s.certs ≡ false
      → Returns (λ v _. v.allowed ≡ true) (gate outside c (some device) s)
        × Returns
            (λ v _. v.allowed ≡ false)
            ((decide_network outside now id approved address owner >>= λ _.
                gate outside c (some device))
              s)
  approve-refused row looked_up own same addressed unreviewed auto starts lacks no_cert = (
    subst (λ b. Returns (λ v _. v.allowed ≡ b) (gate outside c (some device) s))
        (rw (looked_up, unreviewed) (ground (arith, auto, starts)))
        (gate-is_served outside c device single s addressed),
    subst
        (λ b.
          Returns (λ v _. v.allowed ≡ b)
            ((decide_network outside now id approved address owner >>= λ _.
                gate outside c (some device))
              s))
        (ground (arith, lacks, no_cert)) (decided-gate approved row looked_up own same addressed),
  )
