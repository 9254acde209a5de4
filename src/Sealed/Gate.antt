-- ===== src/Sealed/Gate.antt =====
-- sealed.py `_gate`: whether a call that came through a TLS interceptor is served.
use rustdesk_managed_directo.Common.{
  ℕ, String, ◌+◌, Bool, true, false, not, ◌&&◌, ◌||◌, Option, none, some, List, [], ◌∷◌, ◌==◌,
  str_eq, ltb, if◌then◌else◌, is_null, coalesce, exists_where, find_where, latest_where,
  update_where,
}
use rustdesk_managed_directo.Http.{http, Tx, raise, gets, modify, pure, ◌>>=◌, ◌>>◌}
use rustdesk_managed_directo.Sealed.{
  Outside, NetworkStatus, pending, approved, denied, Network, Observation, Inspected, DeviceCert,
  Inspection,
}

abbrev pub bootstrap_prefixes : List String
bootstrap_prefixes = "/v1/enrollment/" ∷ "/v1/device/edge-cert" ∷ "/v1/peer-auth/ca" ∷ []

unfoldable pub is_bootstrap : Outside → String → Bool
is_bootstrap outside path =
    exists_where (λ prefix. outside.has_prefix path prefix) bootstrap_prefixes

-- What `_gate` returns, without the actions that send alerts.
pub record Verdict : Type 0 where
  pub allowed : Bool
  pub reason : String

-- The arguments of `_gate` but the credential, with the time, the id of a new row
-- and SEALED_REQUIRE_EDGE_CERT.
pub record Call : Type 0 where
  pub path : String
  pub ip : String
  pub issuer : Option String
  pub edge_cert_verified : Bool
  pub require_edge_cert : Bool
  pub now : ℕ
  pub fresh_id : ℕ

abbrev pub lacks_edge_cert : Call → Bool
lacks_edge_cert c = c.require_edge_cert && not c.edge_cert_verified

-- SELECT … WHERE cidr >>= … ORDER BY masklen(cidr) DESC LIMIT 1
unfoldable pub network_of : Outside → String → List Network → Option Network
network_of outside ip networks =
    latest_where (λ n. outside.mask_length n.cidr) (λ n. outside.covers n.cidr ip) networks

abbrev pub new_network : Call → String → Network
new_network c cidr = record {
  id = c.fresh_id;
  cidr = cidr;
  status = pending;
  rdap_netblock = none;
  inspector_issuer = c.issuer;
  decided_by = none;
  decided_at = none;
  last_seen_at = c.now;
  bootstrap_requests = 0;
}

unfoldable pub see_network : Call → Network → List Network → List Network
see_network c n networks =
    update_where (λ m. m.id == n.id)
      (λ m. record m {
        last_seen_at = c.now;
        inspector_issuer = coalesce c.issuer m.inspector_issuer;
      })
      networks

-- The network's row, inserted if there is none.
unfoldable pub ensure_network : Call → String → Option Network → Tx Inspection Network
ensure_network c cidr none = do
  modify (λ s. record s { networks = new_network c cidr ∷ s.networks })
  pure (new_network c cidr)
ensure_network c cidr (some n) = do
  modify (λ s. record s { networks = see_network c n s.networks })
  pure n

unfoldable pub count_bootstrap : Network → Tx Inspection (Unit {0})
count_bootstrap n = modify (λ s. record s {
  networks =
      update_where (λ m. m.id == n.id)
        (λ m. record m { bootstrap_requests = m.bootstrap_requests + 1 }) s.networks;
})

-- The device's policy; a device without a row has 'auto'.
unfoldable pub has_strict_policy : ℕ → List Inspected → Bool
has_strict_policy device ds = elim (find_where (λ d. d.device_id == device) ds) [
  | none ↦ false
  | some d ↦ d.is_strict
]

unfoldable pub is_active_cert : ℕ → ℕ → DeviceCert → Bool
is_active_cert device now cert =
    cert.device_id == device && cert.is_device && is_null cert.revoked_at && ltb now cert.expires_at

abbrev pub verdict : Bool → String → Verdict
verdict allowed reason = record { allowed = allowed; reason = reason }

-- The chain of conditions.
unfoldable pub judge_call : NetworkStatus → Bool → Bool → Bool → Verdict
judge_call denied strict bootstrap lacks = verdict false "denied"
judge_call approved strict bootstrap lacks =
    if strict then verdict false "device_strict" else verdict true "approved"
judge_call pending strict bootstrap lacks =
    if strict
    then verdict false "device_strict"
    else if bootstrap
    then verdict true "bootstrap"
    else if lacks
    then verdict false "unreviewed_edge_cert_required"
    else verdict true "allowed"

-- An approved network still asks for a certificate while certificates are required.
unfoldable pub check_cert : Verdict → Bool → Bool → Verdict
check_cert v lacks holds =
    if v.allowed && str_eq v.reason "approved" && lacks && not holds
    then verdict false "no_edge_cert"
    else v

unfoldable pub observe : Call → ℕ → Network → String → List Observation → List Observation
observe c device n reason [] =
    record {
      network_id = n.id;
      device_id = device;
      egress_ip = c.ip;
      request_count = 1;
      last_decision = reason;
      last_alert_at = none;
    }
    ∷ []
observe c device n reason (o ∷ os) =
    let rest = observe c device n reason os in
    if o.network_id == n.id && o.device_id == device
    then record o { egress_ip = c.ip; request_count = o.request_count + 1; last_decision = reason }
      ∷ os
    else o ∷ rest

-- ALERT_REPEAT, in seconds
abbrev pub alert_repeat : ℕ
alert_repeat = 86400

abbrev pub is_due : ℕ → Option ℕ → Bool
is_due now none = true
is_due now (some t) = ltb (t + alert_repeat) now

unfoldable pub note_alert :
    Call → ℕ → Network → Bool → Bool → Bool → List Observation → List Observation
note_alert c device n is_new inserted allowed os =
    update_where
      (λ o.
        o.network_id == n.id
        && o.device_id == device
        && (is_new || ((not allowed || inserted) && is_due c.now o.last_alert_at)))
      (λ o. record o { last_alert_at = some c.now }) os

-- The part for a device with a valid credential.
unfoldable pub gate_device : Outside → Call → ℕ → Bool → Network → Tx Inspection Verdict
gate_device outside c device is_new n = do
  strict ← gets (λ s. has_strict_policy device s.devices)
  holds ← gets (λ s. exists_where (is_active_cert device c.now) s.certs)
  seen ←
      gets (λ s. exists_where (λ o. o.network_id == n.id && o.device_id == device) s.observations)
  let v =
      check_cert (judge_call n.status strict (is_bootstrap outside c.path) (lacks_edge_cert c))
        (lacks_edge_cert c) holds
  modify (λ s. record s {
    observations =
        note_alert c device n is_new (not seen) v.allowed
          (observe c device n v.reason s.observations);
    devices =
        update_where (λ d. d.device_id == device)
          (λ d. record d { sealed_last_inspected_at = some c.now }) s.devices;
  })
  pure v

abbrev pub gate_known : Outside → Call → Bool → Option ℕ → Network → Tx Inspection Verdict
gate_known outside c is_new none n = do count_bootstrap n; pure (verdict true "bootstrap")
gate_known outside c is_new (some device) n = gate_device outside c device is_new n

abbrev pub gate_at : Outside → Call → Option ℕ → Option String → Tx Inspection Verdict
gate_at outside c device none = raise (http 503 "inspected_network_unknown_source")
gate_at outside c device (some cidr) = do
  known ← gets (λ s. network_of outside c.ip s.networks)
  n ← ensure_network c cidr known
  gate_known outside c (is_null known) device n

-- `_gate`, with the device that a valid credential names
unfoldable pub gate : Outside → Call → Option ℕ → Tx Inspection Verdict
gate outside c device =
    if is_null device && not (is_bootstrap outside c.path)
    then pure (
        if lacks_edge_cert c
        then verdict false "edge_certificate_required"
        else verdict true "unauthenticated")
    else gate_at outside c device (outside.single c.ip)
