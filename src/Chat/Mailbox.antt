-- ===== src/Chat/Mailbox.antt =====
-- managed_chat.py `_purge_if_fully_delivered`, `_fetch_and_ack_pending` and the hourly sweep.
use rustdesk_managed_directo.Common.{
  ℕ, ◌+◌, ◌*◌, Bool, not, ◌&&◌, some, List, [], ◌∷◌, ◌==◌, ltb, if◌then◌else◌, is_null, map, select,
  exists_where, order_by, update_where,
}
use rustdesk_managed_directo.Chat.{Message, Receipt, Chat}

-- The message is still to be delivered to the device.
unfoldable pub is_pending_for : ℕ → ℕ → Receipt → Bool
is_pending_for message device r =
    r.message_id == message && r.device_id == device && is_null r.delivered_at

-- The message is still to be delivered to anyone.
unfoldable pub is_undelivered : ℕ → Receipt → Bool
is_undelivered message r = r.message_id == message && is_null r.delivered_at

unfoldable pub has_id : ℕ → Message → Bool
has_id id m = m.id == id

-- DELETE FROM chat_messages WHERE …, with the receipts' ON DELETE CASCADE.
unfoldable pub delete_messages : (Message → Bool) → Chat → Chat
delete_messages p chat =
    let kept = select (λ m. not (p m)) chat.messages in
    record chat {
      messages = kept;
      receipts = select (λ r. exists_where (has_id r.message_id) kept) chat.receipts;
    }

-- `_purge_if_fully_delivered`
unfoldable pub purge_if_fully_delivered : ℕ → Chat → Chat
purge_if_fully_delivered id chat =
    if exists_where (is_undelivered id) chat.receipts
    then chat
    else delete_messages (has_id id) chat

unfoldable pub purge_each : List ℕ → Chat → Chat
purge_each [] chat = chat
purge_each (id ∷ ids) chat = purge_each ids (purge_if_fully_delivered id chat)

unfoldable pub one_of : List ℕ → ℕ → Bool
one_of ids id = exists_where (λ i. i == id) ids

-- UPDATE chat_message_receipts SET delivered_at = now() WHERE device_id = … AND message_id = ANY(…)
unfoldable pub mark_delivered : ℕ → ℕ → List ℕ → List Receipt → List Receipt
mark_delivered now device ids receipts =
    update_where (λ r. r.device_id == device && one_of ids r.message_id)
      (λ r. record r { delivered_at = some now }) receipts

-- The WHERE of the query: the message is in the conversation and waits for the device.
unfoldable pub waits : Chat → ℕ → ℕ → Message → Bool
waits chat conversation device m =
    m.conversation_id == conversation && exists_where (is_pending_for m.id device) chat.receipts

unfoldable pub pending : ℕ → ℕ → Chat → List Message
pending conversation device chat =
    order_by (λ m. m.sent_at) (select (waits chat conversation device) chat.messages)

-- The UPDATE, and the purge of each message.
unfoldable pub acknowledge : ℕ → ℕ → List ℕ → Chat → Chat
acknowledge now device ids chat =
    purge_each ids (record chat { receipts = mark_delivered now device ids chat.receipts })

-- `_fetch_and_ack_pending`
unfoldable pub fetch_and_ack_pending : ℕ → ℕ → ℕ → Chat → List Message × Chat
fetch_and_ack_pending now conversation device chat = elim (pending conversation device chat) [
  | [] ↦ ([], chat)
  | m ∷ ms ↦ (m ∷ ms, acknowledge now device (map (λ x. x.id) (m ∷ ms)) chat)
]

-- CHAT_MESSAGE_MAX_AGE, in seconds
abbrev pub message_max_age : ℕ
message_max_age = 30 * 86400

-- `_sweep_stale_messages`, one round
unfoldable pub sweep : ℕ → Chat → Chat
sweep now chat = delete_messages (λ m. ltb (m.sent_at + message_max_age) now) chat
