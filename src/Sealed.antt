-- ===== src/Sealed.antt =====
-- Calls sealed end to end: sealed.py and the tables of the migration 043.
pub mod Envelope
pub mod Replay
pub mod Gate
pub mod Served
pub mod Networks
pub mod Decided
pub mod Undated
use rustdesk_managed_directo.Common.{ℕ, String, Bool, Option, List}

-- What is taken from Python, PostgreSQL and the cryptography library.
pub record Outside : Type 0 where
  pub upper : String → String
  pub lower : String → String
  pub text_length : String → ℕ
  -- re.fullmatch of [\x21-\x7e]+
  pub is_printable : String → Bool
  pub has_prefix : String → String → Bool
  pub has_suffix : String → String → Bool
  pub contains : String → String → Bool
  -- urlsplit: the path, if there is no scheme, host or fragment
  pub plain_path : String → Option String
  pub sha256 : String → String
  -- PostgreSQL's `cidr >>= address`, `cidr << cidr` and masklen
  pub covers : String → String → Bool
  pub inside : String → String → Bool
  pub mask_length : String → ℕ
  -- The address as a network of its own, if it is an address.
  pub single : String → Option String

-- A row of sealed_replay.
pub record ReplayRow : Type 0 where
  pub eph_hash : String
  pub seen_at : ℕ

pub data NetworkStatus : Type 0 where
  pending approved denied : NetworkStatus

pub record Network : Type 0 where
  pub id : ℕ
  pub cidr : String
  pub status : NetworkStatus
  pub rdap_netblock : Option String
  pub inspector_issuer : Option String
  pub decided_by : Option String
  pub decided_at : Option ℕ
  pub last_seen_at : ℕ
  pub bootstrap_requests : ℕ

pub record Observation : Type 0 where
  pub network_id : ℕ
  pub device_id : ℕ
  pub egress_ip : String
  pub request_count : ℕ
  pub last_decision : String
  pub last_alert_at : Option ℕ

-- The columns of managed_devices that the gate reads and writes.
pub record Inspected : Type 0 where
  pub device_id : ℕ
  pub is_strict : Bool
  pub sealed_last_inspected_at : Option ℕ

-- The columns of edge_client_certs that the gate reads.
pub record DeviceCert : Type 0 where
  pub device_id : ℕ
  pub is_device : Bool
  pub revoked_at : Option ℕ
  pub expires_at : ℕ

pub record Inspection : Type 0 where
  pub networks : List Network
  pub observations : List Observation
  pub devices : List Inspected
  pub certs : List DeviceCert
