-- ===== src/Sealed/Served.antt =====
-- Which calls of a device through an inspected network are served.
use rustdesk_managed_directo.Common.{
  ℕ, String, ◌≡◌, refl, Bool, true, false, not, ◌&&◌, ◌||◌, Option, none, some, is_null,
  exists_where,
}
use rustdesk_managed_directo.Http.{◌>>=◌}
use rustdesk_managed_directo.Http.Keeps.{Returns}
use rustdesk_managed_directo.Sealed.{
  Outside, NetworkStatus, pending, approved, denied, Network, Inspection,
}
use rustdesk_managed_directo.Sealed.Gate.{
  Call, is_bootstrap, lacks_edge_cert, network_of, ensure_network, has_strict_policy,
  is_active_cert, judge_call, check_cert, gate_device, gate,
}

-- The status of the network of an address: a network that is not known yet is pending.
abbrev pub status_of : Option Network → NetworkStatus
status_of none = pending
status_of (some n) = n.status

-- The rule, said once for all calls with a credential: never on a denied network, never for a strict
-- device; without the edge certificate that is required, on an approved network only with an active
-- certificate on file, and on a pending one only where a device starts.
abbrev pub is_served : NetworkStatus → Bool → Bool → Bool → Bool → Bool
is_served denied strict bootstrap lacks holds = false
is_served approved strict bootstrap lacks holds = not strict && (not lacks || holds)
is_served pending strict bootstrap lacks holds = not strict && (not lacks || bootstrap)

judged :
    (s : NetworkStatus) (strict bootstrap lacks holds : Bool)
    → (check_cert (judge_call s strict bootstrap lacks) lacks holds).allowed
      ≡ is_served s strict bootstrap lacks holds
unfolding check_cert judge_call
judged denied strict bootstrap lacks holds = refl
judged approved true bootstrap lacks holds = refl
judged approved false bootstrap true true = refl
judged approved false bootstrap true false = refl
judged approved false bootstrap false holds = refl
judged pending true bootstrap lacks holds = refl
judged pending false true true holds = refl
judged pending false true false holds = refl
judged pending false false true holds = refl
judged pending false false false holds = refl

module _ (outside : Outside) (c : Call) (device : ℕ) (cidr : String) where
  -- For a call with a valid credential from an address, the gate always answers, and serves it exactly
  -- by the rule, at the status of the most specific network that covers the address.
  pub gate-is_served :
      (s : Inspection)
      → outside.single c.ip ≡ some cidr
      → Returns
          (λ v t.
            v.allowed
            ≡ is_served
                (status_of (network_of outside c.ip s.networks))
                (has_strict_policy device s.devices)
                (is_bootstrap outside c.path)
                (lacks_edge_cert c)
                (exists_where (is_active_cert device c.now) s.certs))
          (gate outside c (some device) s)
  unfolding gate ensure_network gate_device ◌>>=◌
  gate-is_served s address = rw address (go (network_of outside c.ip s.networks))
    where
      go :
          (n : Option Network)
          → Returns
              (λ v t.
                v.allowed
                ≡ is_served
                    (status_of n)
                    (has_strict_policy device s.devices)
                    (is_bootstrap outside c.path)
                    (lacks_edge_cert c)
                    (exists_where (is_active_cert device c.now) s.certs))
              ((ensure_network c cidr n >>= λ m. gate_device outside c device (is_null n) m) s)
      go none =
          judged pending (has_strict_policy device s.devices) (is_bootstrap outside c.path)
            (lacks_edge_cert c) (exists_where (is_active_cert device c.now) s.certs)
      go (some n) =
          judged n.status (has_strict_policy device s.devices) (is_bootstrap outside c.path)
            (lacks_edge_cert c) (exists_where (is_active_cert device c.now) s.certs)
