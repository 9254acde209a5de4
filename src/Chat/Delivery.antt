-- ===== src/Chat/Delivery.antt =====
-- A message reaches every other participant, and is handed to each once.
use rustdesk_managed_directo.Common.{
  ℕ, String, ◌≡◌, ◌≢◌, refl, ◌∙◌, Bool, true, not, ◌&&◌, List, [], ◌∷◌, ◌==◌, str_eq, str_eq_iff,
  arith, inl, inr, Bool-cases, map, select, exists_where, order_by,
}
use rustdesk_managed_directo.Common.Picks.{select-none, exists_where-order_by}
use rustdesk_managed_directo.Http.{◌>>=◌}
use rustdesk_managed_directo.Http.Keeps.{Returns}
use rustdesk_managed_directo.Chat.{Participant, Message, Receipt, Chat}
use rustdesk_managed_directo.Chat.Mailbox.{
  is_pending_for, waits, pending, acknowledge, fetch_and_ack_pending,
}
use rustdesk_managed_directo.Chat.Handlers.{
  takes_part, require_participant, get_messages, recipients_of, insert_receipts, new_message,
  post_message,
}
use rustdesk_managed_directo.Chat.Drained.{Cleared, fetch_and_ack_pending-Cleared}
use rustdesk_managed_directo.Chat.Untouched.{fetch_and_ack_pending-pending}

pub Cleared-pending :
    (c device : ℕ) (chat : Chat) → Cleared c device chat → pending c device chat ≡ []
unfolding pending order_by
Cleared-pending c device chat h = rw (select-none (waits chat c device) chat.messages h) refl

fetched-pending :
    (now c device : ℕ) (chat : Chat)
    → (fetch_and_ack_pending now c device chat).0 ≡ pending c device chat
unfolding fetch_and_ack_pending
fetched-pending now c device chat = go (pending c device chat)
  where
    go :
        (ms : List Message)
        → (let r : List Message × Chat = elim ms [
          | [] ↦ ([], chat)
          | m ∷ rest ↦ (m ∷ rest, acknowledge now device (map (λ x. x.id) (m ∷ rest)) chat)
        ] in
            r.0)
          ≡ ms
    go [] = refl
    go (m ∷ rest) = refl

-- A participant that fetches is given all that waits for it in the conversation; afterwards nothing
-- waits for it there, and for every other device, in every conversation, the same messages wait as
-- before.
pub get_messages-pending :
    (now c self : ℕ) (chat : Chat)
    → exists_where (takes_part c self) chat.participants ≡ true
    → Returns
        (λ messages t.
          (messages ≡ pending c self chat)
          × (pending c self t ≡ [])
          × ((other from : ℕ) → self ≢ other → pending from other t ≡ pending from other chat))
        (get_messages now c self chat)
unfolding get_messages require_participant ◌>>=◌
get_messages-pending now c self chat h = rw h (
  fetched-pending now c self chat,
  Cleared-pending c self _ (fetch_and_ack_pending-Cleared now c self chat),
  λ other from apart. fetch_and_ack_pending-pending from other now c self chat apart,
)

-- Each other participant is given a receipt.
recipient-receipt :
    (id c self d : ℕ) (ps : List Participant) (rs : List Receipt)
    → self ≢ d
    → exists_where (takes_part c d) ps ≡ true
    → exists_where (is_pending_for id d) (insert_receipts id (recipients_of c self ps) rs) ≡ true
unfolding recipients_of insert_receipts is_pending_for takes_part exists_where select map
recipient-receipt id c self d [] rs apart h = cc h
recipient-receipt id c self d (p ∷ ps) rs apart h =
    elim (Bool-cases (p.conversation_id == c && not (p.device_id == self))) [
      | inl e ↦
          rw (e, map, insert_receipts)
            (ground (arith, h, recipient-receipt id c self d ps rs apart))
      | inr e ↦ rw e (recipient-receipt id c self d ps rs apart (ground (arith, h, e, apart)))
    ]

posted-waits :
    (id now c self d : ℕ) (body : String) (chat t : Chat)
    → t.receipts ≡ insert_receipts id (recipients_of c self chat.participants) chat.receipts
    → self ≢ d
    → exists_where (takes_part c d) chat.participants ≡ true
    → waits t c d (new_message id now c self body) ≡ true
unfolding waits
posted-waits id now c self d body chat t e apart other =
    let r = recipient-receipt id c self d chat.participants chat.receipts apart other in
    let own : (c == c) ≡ true = ground arith in rw (e, own) r

-- The message as its sender posted it.
abbrev pub is_posted : ℕ → ℕ → String → Message → Bool
is_posted id sender body m = m.id == id && m.sender_device_id == sender && str_eq m.body body

is_posted-new :
    (id now c self : ℕ) (body : String)
    → is_posted id self body (new_message id now c self body) ≡ true
is_posted-new id now c self body = let same = (str_eq_iff body body).1 refl in ground (arith, same)

first-pending :
    (q : Message → Bool) (c d : ℕ) (m : Message) (ms : List Message) (chat : Chat)
    → chat.messages ≡ m ∷ ms
    → waits chat c d m ≡ true
    → q m ≡ true
    → exists_where q (pending c d chat) ≡ true
unfolding pending select exists_where
first-pending q c d m ms chat e w h =
    exists_where-order_by q (λ x. x.sent_at) (select (waits chat c d) chat.messages)
    ∙ rw (e, select, w, exists_where, h) refl

-- Once a participant has posted a message, it waits, as it was posted, for every other participant.
pub post_message-pending :
    (id now c self d : ℕ) (body : String) (chat : Chat)
    → exists_where (takes_part c self) chat.participants ≡ true
    → exists_where (takes_part c d) chat.participants ≡ true
    → self ≢ d
    → Returns
        (λ posted t. exists_where (is_posted id self body) (pending c d t) ≡ true)
        (post_message id now c self body chat)
unfolding post_message require_participant ◌>>=◌
post_message-pending id now c self d body chat mine other apart = rw mine (
    first-pending (is_posted id self body) c d (new_message id now c self body) chat.messages _ refl
      (posted-waits id now c self d body chat _ refl apart other)
      (is_posted-new id now c self body))
