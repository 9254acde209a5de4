-- ===== src/Chat/Handlers.antt =====
-- managed_chat.py: the routes of `register_chat_routes`. A route that commits, pushes to sockets and
-- commits again is in its parts here, as other requests may run in between.
use rustdesk_managed_directo.Common.{
  ℕ, String, min, max, Bool, false, not, ◌&&◌, none, some, List, [], ◌∷◌, ◌++◌, ◌==◌, str_eq, leb,
  if◌then◌else◌, map, select, exists_where, find_where, update_where,
}
use rustdesk_managed_directo.Http.{http, Tx, raise, gets, modify, pure, raise_if, ◌>>=◌, ◌>>◌}
use rustdesk_managed_directo.Store.{is_approved}
use rustdesk_managed_directo.Store.Queries.{found}
use rustdesk_managed_directo.Chat.{Peer, Conversation, Participant, Message, Receipt, Chat}
use rustdesk_managed_directo.Chat.Connections.{Connection, push, push_all}
use rustdesk_managed_directo.Chat.Mailbox.{purge_if_fully_delivered, one_of, fetch_and_ack_pending}

-- `_direct_pair_key`
unfoldable pub direct_pair_key : ℕ → ℕ → ℕ × ℕ
direct_pair_key a b = (min a b, max a b)

unfoldable pub has_pair_key : ℕ × ℕ → Conversation → Bool
has_pair_key (lo, hi) c = elim c.direct_pair_key [
  | none ↦ false
  | some key ↦ key.0 == lo && key.1 == hi
]

unfoldable pub is_peer : String → Peer → Bool
is_peer rustdesk_id p = str_eq p.rustdesk_id rustdesk_id && is_approved p.status

unfoldable pub takes_part : ℕ → ℕ → Participant → Bool
takes_part conversation device p = p.conversation_id == conversation && p.device_id == device

pub record Summary : Type 0 where
  pub id : ℕ
  pub created_at : ℕ
  pub participants : List Peer

-- JOIN managed_devices d ON d.id = p.device_id WHERE p.conversation_id = …
unfoldable pub participants_of : ℕ → List Participant → List Peer → List Peer
participants_of conversation [] devices = []
participants_of conversation (p ∷ ps) devices =
    let rest = participants_of conversation ps devices in
    if p.conversation_id == conversation
    then elim (find_where (λ d. d.id == p.device_id) devices) [ none ↦ rest | some d ↦ d ∷ rest ]
    else rest

-- `_conversation_summary`
unfoldable pub conversation_summary : ℕ → Tx Chat Summary
conversation_summary id chat = elim (find_where (λ c. c.id == id) chat.conversations) [
  | none ↦ raise (http 404 "Conversation not found") chat
  | some c ↦
      pure
        (record {
          id = c.id;
          created_at = c.created_at;
          participants = participants_of id chat.participants chat.devices;
        })
        chat
]

-- The two INSERTs of a new conversation.
unfoldable pub insert_conversation : ℕ → ℕ → ℕ → ℕ → Chat → Chat
insert_conversation id now self peer chat = record chat {
  conversations =
      record {
        id = id;
        direct_pair_key = some (direct_pair_key self peer);
        created_by = self;
        created_at = now;
      }
      ∷ chat.conversations;
  participants =
      record { conversation_id = id; device_id = self }
      ∷ record { conversation_id = id; device_id = peer }
      ∷ chat.participants;
}

-- The conversation of the pair, which is opened if there is none.
unfoldable pub ensure_conversation : ℕ → ℕ → ℕ → ℕ → Tx Chat ℕ
ensure_conversation id now self peer chat =
    elim (find_where (has_pair_key (direct_pair_key self peer)) chat.conversations) [
      | some c ↦ pure c.id chat
      | none ↦ pure id (insert_conversation id now self peer chat)
    ]

-- `start_conversation`, with the id that a new conversation is given.
unfoldable pub start_conversation : ℕ → ℕ → ℕ → String → Tx Chat Summary
start_conversation id now self rustdesk_id = do
  peer ← (λ chat.
      found (find_where (is_peer rustdesk_id) chat.devices) (http 404 "Peer device not found") chat)
  raise_if (str_eq peer.platform "android") (http 409 "This device can't receive chat messages")
  raise_if (peer.id == self) (http 400 "Cannot start a conversation with yourself")
  conversation ← ensure_conversation id now self peer.id
  conversation_summary conversation

-- `_require_participant`
unfoldable pub require_participant : ℕ → ℕ → Tx Chat (Unit {0})
require_participant conversation device chat =
    raise_if (not (exists_where (takes_part conversation device) chat.participants))
      (http 404 "Conversation not found") chat

unfoldable pub summaries : List ℕ → Tx Chat (List Summary)
summaries [] chat = pure [] chat
summaries (id ∷ ids) chat =
    (do first ← conversation_summary id; rest ← summaries ids; pure (first ∷ rest)) chat

unfoldable pub insert_newest : Summary → List Summary → List Summary
insert_newest s [] = s ∷ []
insert_newest s (t ∷ ts) =
    let rest = insert_newest s ts in if leb t.created_at s.created_at then s ∷ t ∷ ts else t ∷ rest

-- summaries.sort(key=…, reverse=True), which is stable
unfoldable pub newest_first : List Summary → List Summary
newest_first [] = []
newest_first (s ∷ ss) = insert_newest s (newest_first ss)

-- SELECT conversation_id FROM chat_participants WHERE device_id = …
unfoldable pub conversation_ids : ℕ → List Participant → List ℕ
conversation_ids device ps = map (λ p. p.conversation_id) (select (λ p. p.device_id == device) ps)

-- `list_conversations`
unfoldable pub list_conversations : ℕ → Tx Chat (List Summary)
list_conversations self = do
  ids ← gets (λ chat. conversation_ids self chat.participants)
  all ← summaries ids
  pure (newest_first all)

-- `get_messages`, up to its commit
unfoldable pub get_messages : ℕ → ℕ → ℕ → Tx Chat (List Message)
get_messages now conversation self = do
  require_participant conversation self
  messages ← gets (λ chat. (fetch_and_ack_pending now conversation self chat).0)
  modify (λ chat. (fetch_and_ack_pending now conversation self chat).1)
  pure messages

-- The other participants: SELECT … AND device_id != …
unfoldable pub recipients_of : ℕ → ℕ → List Participant → List ℕ
recipients_of conversation self ps =
    map (λ p. p.device_id)
      (select (λ p. p.conversation_id == conversation && not (p.device_id == self)) ps)

unfoldable pub insert_receipts : ℕ → List ℕ → List Receipt → List Receipt
insert_receipts message [] rs = rs
insert_receipts message (d ∷ ds) rs =
    record { message_id = message; device_id = d; delivered_at = none }
    ∷ insert_receipts message ds rs

abbrev pub new_message : ℕ → ℕ → ℕ → ℕ → String → Message
new_message id now conversation self body = record {
  id = id;
  conversation_id = conversation;
  sender_device_id = self;
  body = body;
  sent_at = now;
}

-- The first transaction of `send_message`, with the id of the new row: the message and whom to push
-- it to.
unfoldable pub post_message : ℕ → ℕ → ℕ → ℕ → String → Tx Chat (Message × List ℕ)
post_message id now conversation self body = do
  require_participant conversation self
  recipients ← gets (λ chat. recipients_of conversation self chat.participants)
  modify (λ chat. record chat {
    messages = new_message id now conversation self body ∷ chat.messages;
    receipts = insert_receipts id recipients chat.receipts;
    send_events = record { sender_device_id = self; sent_at = now } ∷ chat.send_events;
  })
  pure (new_message id now conversation self body, recipients)

-- UPDATE chat_message_receipts … WHERE message_id = … AND device_id = ANY(…)
unfoldable pub mark_pushed : ℕ → ℕ → List ℕ → List Receipt → List Receipt
mark_pushed now message devices receipts =
    update_where (λ r. r.message_id == message && one_of devices r.device_id)
      (λ r. record r { delivered_at = some now }) receipts

-- The second transaction of `send_message`, for the recipients that took the push.
unfoldable pub settle : ℕ → ℕ → List ℕ → Chat → Chat
settle now message [] chat = chat
settle now message (d ∷ ds) chat =
    purge_if_fully_delivered message
      (record chat { receipts = mark_pushed now message (d ∷ ds) chat.receipts })

-- `send_message`, when nothing else runs between its parts: the message, the devices that took it,
-- and the connections that are left.
unfoldable pub send_message :
    (ℕ → Bool)
    → List Connection
    → ℕ
    → ℕ
    → ℕ
    → ℕ
    → String
    → Tx Chat (Message × List ℕ × List Connection)
send_message takes connections id now conversation self body = do
  posted ← post_message id now conversation self body
  let pushed = push_all takes posted.1 connections
  modify (settle now id pushed.0)
  pure (posted.0, pushed.0, pushed.1)

-- `_notify_senders_delivered`
unfoldable pub notify_senders : (ℕ → Bool) → ℕ → List Message → List Connection → List Connection
notify_senders takes self [] cs = cs
notify_senders takes self (m ∷ ms) cs =
    notify_senders takes self ms
      (if m.sender_device_id == self then cs else (push takes m.sender_device_id cs).1)

-- The catch-up of `chat_websocket` drains each conversation of the device, and commits.
unfoldable pub drain_each : ℕ → ℕ → List ℕ → Chat → List Message × Chat
drain_each now self [] chat = ([], chat)
drain_each now self (c ∷ cs) chat =
    let first = fetch_and_ack_pending now c self chat in
    let rest = drain_each now self cs first.1 in (first.0 ++ rest.0, rest.1)

unfoldable pub catch_up : ℕ → ℕ → Chat → List Message × Chat
catch_up now self chat = drain_each now self (conversation_ids self chat.participants) chat

-- The pushes of the catch-up: the messages that the device's socket took.
unfoldable pub push_messages :
    (ℕ → Bool) → ℕ → List Message → List Connection → List Message × List Connection
push_messages takes self [] cs = ([], cs)
push_messages takes self (m ∷ ms) cs =
    let first = push takes self cs in
    let rest = push_messages takes self ms first.1 in
    (if first.0 then m ∷ rest.0 else rest.0, rest.1)
