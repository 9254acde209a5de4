-- ===== src/Files.antt =====
-- Files sent between managed devices: rustdrop.py and the tables of the migrations 034 to 044. The
-- bytes are on a storage service that the code only calls: its answers are arguments here.
pub mod Settings
pub mod Configured
pub mod Drops
pub mod Relay
pub mod Steps
pub mod Expiry
pub mod Swept
pub mod Parties
pub mod Delivered
use rustdesk_managed_directo.Common.{ℕ, String, Bool, true, false, Option, List}
use rustdesk_managed_directo.Store.{Setting, SettingValue}
use rustdesk_managed_directo.Chat.{Peer}

pub record Registration : Type 0 where
  pub device_id : ℕ
  pub registered_at : ℕ
  pub last_seen_at : ℕ
  pub public_key : String
  pub capabilities : List String

pub data DropStatus : Type 0 where
  uploading complete delivered failed declined : DropStatus

pub record Drop : Type 0 where
  pub id : ℕ
  pub sender_device_id : ℕ
  pub recipient_device_id : ℕ
  pub filename : String
  pub declared_size : ℕ
  pub bytes_uploaded : ℕ
  pub storage_key : ℕ
  pub status : DropStatus
  pub content_sha256 : Option String
  pub sender_public_key : String
  pub created_at : ℕ
  pub updated_at : ℕ
  pub expires_at : Option ℕ

pub record TransferEvent : Type 0 where
  pub drop_id : ℕ
  pub sender_device_id : ℕ
  pub recipient_device_id : ℕ
  pub bytes : ℕ
  pub occurred_at : ℕ

pub record Files : Type 0 where
  pub devices : List Peer
  pub registrations : List Registration
  pub drops : List Drop
  pub events : List TransferEvent
  pub settings : List Setting

-- What is taken from Python and PostgreSQL: `int` of a text, the seconds of a setting in hours, the
-- first 32 characters of a text, and whether a Range header starts with byte 0.
pub record Reading : Type 0 where
  pub parse_int : String → Option ℕ
  pub seconds_of_hours : SettingValue → Option ℕ
  pub first_32 : String → String
  pub starts_at_zero : String → Bool

abbrev pub is_uploading : DropStatus → Bool
is_uploading uploading = true
is_uploading _ = false

abbrev pub is_complete : DropStatus → Bool
is_complete complete = true
is_complete _ = false

abbrev pub is_delivered : DropStatus → Bool
is_delivered delivered = true
is_delivered _ = false

abbrev pub is_failed : DropStatus → Bool
is_failed failed = true
is_failed _ = false
