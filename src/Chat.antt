-- ===== src/Chat.antt =====
-- Messages between managed devices: managed_chat.py and the tables of the migrations 026 to 028.
-- Devices and conversations are numbers here, and the columns of managed_devices are those that the
-- chat reads.
pub mod Mailbox
pub mod Handlers
pub mod Connections
pub mod Sockets
pub mod Steps
pub mod Drained
pub mod Untouched
pub mod Pairs
pub mod Awaited
pub mod Standing
pub mod Delivery
pub mod CatchUp
use rustdesk_managed_directo.Common.{ℕ, String, Option, List}
use rustdesk_managed_directo.Store.{Status}

-- A row of managed_devices.
pub record Peer : Type 0 where
  pub id : ℕ
  pub rustdesk_id : String
  pub friendly_name : Option String
  pub status : Status
  pub platform : String

pub record Conversation : Type 0 where
  pub id : ℕ
  pub direct_pair_key : Option (ℕ × ℕ)
  pub created_by : ℕ
  pub created_at : ℕ

pub record Participant : Type 0 where
  pub conversation_id : ℕ
  pub device_id : ℕ

pub record Message : Type 0 where
  pub id : ℕ
  pub conversation_id : ℕ
  pub sender_device_id : ℕ
  pub body : String
  pub sent_at : ℕ

pub record Receipt : Type 0 where
  pub message_id : ℕ
  pub device_id : ℕ
  pub delivered_at : Option ℕ

pub record SendEvent : Type 0 where
  pub sender_device_id : ℕ
  pub sent_at : ℕ

pub record Chat : Type 0 where
  pub devices : List Peer
  pub conversations : List Conversation
  pub participants : List Participant
  pub messages : List Message
  pub receipts : List Receipt
  pub send_events : List SendEvent
