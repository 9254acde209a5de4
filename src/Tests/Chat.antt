-- ===== src/Tests/Chat.antt =====
-- Two devices with a conversation and a message that waits.
use rustdesk_managed_directo.Common.{
  ℕ, ◌≡◌, ◌≢◌, refl, true, false, none, List, [], ◌∷◌, arith, exists_where, order_by, insert_by,
  select, map,
}
use rustdesk_managed_directo.Http.{done}
use rustdesk_managed_directo.Http.Keeps.{Returns}
use rustdesk_managed_directo.Store.{approved}
use rustdesk_managed_directo.Chat.{Peer, Message, Chat}
use rustdesk_managed_directo.Chat.Mailbox.{pending, waits, is_pending_for, is_undelivered, one_of}
use rustdesk_managed_directo.Chat.Handlers.{
  takes_part, ensure_conversation, get_messages, post_message, conversation_ids, catch_up,
  push_messages,
}
use rustdesk_managed_directo.Chat.Pairs.{ensure_conversation-same}
use rustdesk_managed_directo.Chat.Delivery.{is_posted, get_messages-pending, post_message-pending}
use rustdesk_managed_directo.Chat.CatchUp.{catch_up-pending}
use rustdesk_managed_directo.Chat.Steps.{Step, start, post, fetch, swept, steps}
use rustdesk_managed_directo.Chat.Standing.{Standing, is_partner, steps-Standing}

abbrev peer : ℕ → Peer
peer id = record {
  id = id;
  rustdesk_id = "100200300";
  friendly_name = none;
  status = approved;
  platform = "windows";
}

abbrev hello : Message
hello = record { id = 5; conversation_id = 3; sender_device_id = 1; body = "hello"; sent_at = 10 }

abbrev chat : Chat
chat = record {
  devices = peer 1 ∷ [];
  conversations = [];
  participants =
      record { conversation_id = 3; device_id = 1 }
      ∷ record { conversation_id = 3; device_id = 2 }
      ∷ [];
  messages = hello ∷ [];
  receipts = record { message_id = 5; device_id = 2; delivered_at = none } ∷ [];
  send_events = [];
}

sender : exists_where (takes_part 3 1) chat.participants ≡ true
unfolding exists_where takes_part
sender = refl

recipient : exists_where (takes_part 3 2) chat.participants ≡ true
unfolding exists_where takes_part
recipient = refl

in_conversation : one_of (conversation_ids 2 chat.participants) 3 ≡ true
unfolding one_of conversation_ids exists_where select map
in_conversation = refl

hello-pending : pending 3 2 chat ≡ hello ∷ []
unfolding pending waits is_pending_for exists_where order_by insert_by select
hello-pending = refl

chat-Standing : Standing chat
unfolding is_undelivered is_partner exists_where
chat-Standing = record { waiting = (refl, tt); paired = (refl, (refl, tt)) }

abbrev some_steps : List Step
some_steps = post 6 20 3 2 "hi" ∷ fetch 30 3 2 ∷ start 7 40 2 "100200300" ∷ swept 9000000 ∷ []

steps-Standing_example : Standing (steps some_steps chat)
steps-Standing_example = steps-Standing some_steps chat chat-Standing

get_messages-pending_example :
    Returns
      (λ messages t.
        (messages ≡ pending 3 2 chat)
        × (pending 3 2 t ≡ [])
        × ((other from : ℕ) → 2 ≢ other → pending from other t ≡ pending from other chat))
      (get_messages 20 3 2 chat)
get_messages-pending_example = get_messages-pending 20 3 2 chat recipient

post_message-pending_example :
    Returns
      (λ posted t. exists_where (is_posted 6 1 "again") (pending 3 2 t) ≡ true)
      (post_message 6 20 3 1 "again" chat)
post_message-pending_example =
    post_message-pending 6 20 3 1 2 "again" chat sender recipient (omega arith)

ensure_conversation-same_example :
    Returns (λ c t. ensure_conversation 8 50 2 1 t ≡ done c t) (ensure_conversation 7 40 1 2 chat)
ensure_conversation-same_example = ensure_conversation-same 7 40 8 50 1 2 chat

catch_up-pending_example :
    ((push_messages (λ s. false) 2 (catch_up 20 2 chat).0 []).0 ≡ [])
    × (pending 3 2 (catch_up 20 2 chat).1 ≡ [])
catch_up-pending_example = catch_up-pending (λ s. false) (λ s. refl) 20 2 3 chat [] in_conversation
