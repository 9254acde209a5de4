-- ===== src/Tests/Sealed.antt =====
-- A sealed call of device 1 from a network that an Owner denies, and its blob sent again.
use rustdesk_managed_directo.Common.{
  String, ◌≡◌, refl, true, false, ◌||◌, Option, none, some, [], ◌∷◌, ◌==◌, str_eq, arith, is_null,
  find_where, latest_where, exists_where,
}
use rustdesk_managed_directo.Http.{◌>>=◌}
use rustdesk_managed_directo.Http.Keeps.{Returns}
use rustdesk_managed_directo.Sealed.{
  Outside, NetworkStatus, pending, approved, denied, Network, Inspection,
}
use rustdesk_managed_directo.Sealed.Envelope.{
  Timestamp, instant, not_a_number, Envelope, is_skewed, one_of_texts, is_bad_target, is_bad_path,
  inner_headers, target_with, target_at, inner_target, has_hash, claim_replay_slot, admit, purge,
}
use rustdesk_managed_directo.Sealed.Replay.{purged, after_all, admit-once}
use rustdesk_managed_directo.Sealed.Undated.{admit-again}
use rustdesk_managed_directo.Sealed.Gate.{
  Call, is_bootstrap, lacks_edge_cert, network_of, has_strict_policy, is_active_cert, gate,
}
use rustdesk_managed_directo.Sealed.Served.{is_served, status_of, gate-is_served}
use rustdesk_managed_directo.Sealed.Networks.{address, decide_network}
use rustdesk_managed_directo.Sealed.Decided.{deny-refused, approve-refused}

-- Every text is its own digest, path and network.
abbrev outside : Outside
outside = record {
  upper = λ t. t;
  lower = λ t. t;
  text_length = λ t. 10;
  is_printable = λ t. true;
  has_prefix = λ t p. str_eq p "/v1/" || str_eq p "/v1/device/edge-cert";
  has_suffix = λ t p. false;
  contains = λ t p. false;
  plain_path = λ t. some t;
  sha256 = λ t. t;
  covers = λ cidr ip. str_eq cidr ip;
  inside = λ a b. false;
  mask_length = λ cidr. 32;
  single = λ ip. some ip;
}

abbrev envelope : Timestamp → Envelope
envelope t = record {
  eph_pub = "key";
  method = "POST";
  target = "/v1/device/edge-cert";
  sent_at = some t;
  headers = [];
}

abbrev opens : Timestamp → String → Option Envelope
opens t blob = some (envelope t)

dated : is_null (admit outside (opens (instant 1000)) 1010 "blob" []).0 ≡ false
unfolding admit inner_target target_at is_skewed one_of_texts is_bad_target is_bad_path
    inner_headers target_with claim_replay_slot has_hash exists_where
dated = refl

undated : is_null (admit outside (opens not_a_number) 1010 "blob" []).0 ≡ false
unfolding admit inner_target target_at is_skewed one_of_texts is_bad_target is_bad_path
    inner_headers target_with claim_replay_slot has_hash exists_where
undated = refl

admit-once_example :
    is_null
      (admit outside (opens (instant 1000)) 1500 "blob" (
        after_all outside
          (opens (instant 1000))
          (purged 1400 ∷ [])
          (admit outside (opens (instant 1000)) 1010 "blob" []).1)).0
    ≡ true
admit-once_example =
    admit-once outside (opens (instant 1000)) 1010 1500 1000 "blob" (envelope (instant 1000))
      (purged 1400 ∷ []) [] refl refl dated (omega arith, tt)

admit-again_example :
    is_null
      (admit outside
        (opens not_a_number)
        9000
        "blob"
        (purge 9000 (admit outside (opens not_a_number) 1010 "blob" []).1)).0
    ≡ false
admit-again_example =
    admit-again outside (opens not_a_number) 1010 9000 "blob" (envelope not_a_number) refl refl
      undated (omega arith)

abbrev network : NetworkStatus → Network
network status = record {
  id = 3;
  cidr = "192.0.2.1";
  status = status;
  rdap_netblock = none;
  inspector_issuer = none;
  decided_by = none;
  decided_at = none;
  last_seen_at = 0;
  bootstrap_requests = 0;
}

abbrev inspection : NetworkStatus → Inspection
inspection status = record {
  networks = network status ∷ [];
  observations = [];
  devices = [];
  certs = [];
}

abbrev call : Call
call = record {
  path = "/v1/device/edge-cert";
  ip = "192.0.2.1";
  issuer = none;
  edge_cert_verified = false;
  require_edge_cert = true;
  now = 100;
  fresh_id = 4;
}

found_network :
    (s : NetworkStatus) → find_where (λ x. x.id == 3) (inspection s).networks ≡ some (network s)
unfolding find_where
found_network s = refl

looked_up :
    (s : NetworkStatus) → network_of outside call.ip (inspection s).networks ≡ some (network s)
unfolding network_of latest_where
looked_up s = refl

starts : is_bootstrap outside call.path ≡ true
unfolding is_bootstrap exists_where
starts = refl

automatic : has_strict_policy 1 [] ≡ false
unfolding has_strict_policy find_where
automatic = refl

no_cert : exists_where (is_active_cert 1 100) [] ≡ false
unfolding exists_where
no_cert = refl

gate-is_served_example :
    Returns
      (λ v t.
        v.allowed
        ≡ is_served
            (status_of (network_of outside call.ip (inspection pending).networks))
            (has_strict_policy 1 (inspection pending).devices)
            (is_bootstrap outside call.path)
            (lacks_edge_cert call)
            (exists_where (is_active_cert 1 call.now) (inspection pending).certs))
      (gate outside call (some 1) (inspection pending))
gate-is_served_example = gate-is_served outside call 1 "192.0.2.1" (inspection pending) refl

approve-refused_example :
    Returns (λ v _. v.allowed ≡ true) (gate outside call (some 1) (inspection pending))
    × Returns
        (λ v _. v.allowed ≡ false)
        ((decide_network outside 100 3 approved address "brad" >>= λ _. gate outside call (some 1))
          (inspection pending))
approve-refused_example =
    approve-refused outside 100 3 "brad" "192.0.2.1" call 1 (network pending) (network pending)
      (inspection pending) (found_network pending) (looked_up pending) refl ((λ own. refl), tt) refl
      refl automatic starts refl no_cert

deny-refused_example :
    Returns
      (λ v _. v.allowed ≡ false)
      ((decide_network outside 100 3 denied address "brad" >>= λ _. gate outside call (some 1))
        (inspection approved))
deny-refused_example =
    deny-refused outside 100 3 "brad" "192.0.2.1" call 1 (network approved) (network approved)
      (inspection approved) (found_network approved) (looked_up approved) refl ((λ own. refl), tt)
      refl
