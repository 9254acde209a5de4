-- ===== src/Chat/Untouched.antt =====
-- What a fetch of `_fetch_and_ack_pending` leaves for every other device: what it had.
use rustdesk_managed_directo.Common.{
  ℕ, ◌≡◌, ◌≢◌, refl, sym, ap, ◌∙◌, Bool, true, false, not, ◌&&◌, List, [], ◌∷◌, ◌==◌, arith, inl,
  inr, Bool-cases, All, All-mono, All-intro, map, select, exists_where, order_by,
}
use rustdesk_managed_directo.Common.Picks.{
  exists_where-kept, select-exists, select-kept, select-ext, exists_where-update_where,
  exists_where-stronger,
}
use rustdesk_managed_directo.Chat.{Message, Receipt, Chat}
use rustdesk_managed_directo.Chat.Mailbox.{
  is_pending_for, is_undelivered, has_id, delete_messages, purge_if_fully_delivered, purge_each,
  mark_delivered, waits, pending, acknowledge, fetch_and_ack_pending,
}
use rustdesk_managed_directo.Chat.Drained.{has_id_self}

-- The receipts of a message that stays do not change.
pub delete_messages-kept :
    (q : Receipt → Bool) (p : Message → Bool) (k : ℕ) (chat : Chat)
    → ((r : Receipt) → q r ≡ true → r.message_id ≡ k)
    → exists_where (has_id k) (select (λ m. not (p m)) chat.messages) ≡ true
    → exists_where q (delete_messages p chat).receipts ≡ exists_where q chat.receipts
unfolding delete_messages
delete_messages-kept q p k chat h stays =
    exists_where-kept q
      (λ r. exists_where (has_id r.message_id) (select (λ m. not (p m)) chat.messages))
      (λ r e.
        ap (λ (i : ℕ). exists_where (has_id i) (select (λ m. not (p m)) chat.messages)) (h r e)
        ∙ stays)
      chat.receipts

-- The messages that stay are found by their ids.
pub stay :
    (p : Message → Bool) (ms : List Message)
    → All
        (λ m. not (p m) ≡ true → exists_where (has_id m.id) (select (λ x. not (p x)) ms) ≡ true)
        ms
stay p ms = select-exists (λ x. not (p x)) (λ m. has_id m.id) has_id_self ms

pending_for-message :
    (k device : ℕ) (r : Receipt) → is_pending_for k device r ≡ true → r.message_id ≡ k
unfolding is_pending_for
pending_for-message k device r h = ground arith

pending_for-undelivered :
    (k device : ℕ) (r : Receipt) → is_pending_for k device r ≡ true → is_undelivered k r ≡ true
unfolding is_pending_for is_undelivered
pending_for-undelivered k device r h = ground arith

unwaited :
    (k c device : ℕ) (m : Message) (chat : Chat)
    → has_id k m ≡ true
    → exists_where (is_undelivered k) chat.receipts ≡ false
    → waits chat c device m ≡ false
unfolding waits has_id
unwaited k c device m chat same e =
    let s : m.id ≡ k = ground (arith, same) in
    let t : exists_where (is_pending_for m.id device) chat.receipts ≡ false =
      exists_where-stronger (is_pending_for m.id device) (is_undelivered k)
        (λ r h.
          ap (λ (i : ℕ). is_undelivered i r) (sym s) ∙ pending_for-undelivered m.id device r h)
        chat.receipts e in
    ground (arith, t)

still_waits :
    (id c device : ℕ) (m : Message) (chat : Chat)
    → exists_where (has_id m.id) (select (λ x. not (has_id id x)) chat.messages) ≡ true
    → waits (delete_messages (has_id id) chat) c device m ≡ waits chat c device m
unfolding waits
still_waits id c device m chat h =
    ap (λ b. m.conversation_id == c && b)
      (delete_messages-kept (is_pending_for m.id device) (has_id id) m.id chat
        (pending_for-message m.id device) h)

module _ (c device : ℕ) where
  delete-waits :
      (id : ℕ) (chat : Chat)
      → exists_where (is_undelivered id) chat.receipts ≡ false
      → select
          (waits (delete_messages (has_id id) chat) c device)
          (delete_messages (has_id id) chat).messages
        ≡ select (waits chat c device) chat.messages
  unfolding delete_messages
  delete-waits id chat e =
      select-kept (waits chat c device) (waits (delete_messages (has_id id) chat) c device)
        (λ m. not (has_id id m)) chat.messages
        (All-mono
          (λ m h. (
            λ k. still_waits id c device m chat (h k),
            λ k. unwaited id c device m chat (ground (arith, k)) e,
          ))
          chat.messages (stay (has_id id) chat.messages))

  -- A purge takes nothing that waits for anyone.
  purge-pending :
      (id : ℕ) (chat : Chat)
      → pending c device (purge_if_fully_delivered id chat) ≡ pending c device chat
  unfolding purge_if_fully_delivered pending
  purge-pending id chat = elim (Bool-cases (exists_where (is_undelivered id) chat.receipts)) [
    | inl e ↦ rw e refl
    | inr e ↦ rw e (ap (order_by (λ m. m.sent_at)) (delete-waits id chat e))
  ]

  purge_each-pending :
      (ids : List ℕ) (chat : Chat) → pending c device (purge_each ids chat) ≡ pending c device chat
  unfolding purge_each
  purge_each-pending [] chat = refl
  purge_each-pending (id ∷ ids) chat =
      purge_each-pending ids (purge_if_fully_delivered id chat) ∙ purge-pending id chat

  mark_delivered-others :
      (now other k : ℕ) (ids : List ℕ) (rs : List Receipt)
      → other ≢ device
      → exists_where (is_pending_for k device) (mark_delivered now other ids rs)
        ≡ exists_where (is_pending_for k device) rs
  unfolding mark_delivered is_pending_for
  mark_delivered-others now other k ids rs apart =
      exists_where-update_where (is_pending_for k device) _ _ (λ r h. ground (arith, apart)) rs

  acknowledge-pending :
      (now other : ℕ) (ids : List ℕ) (chat : Chat)
      → other ≢ device
      → pending c device (acknowledge now other ids chat) ≡ pending c device chat
  unfolding acknowledge pending waits
  acknowledge-pending now other ids chat apart =
      purge_each-pending ids (record chat { receipts = mark_delivered now other ids chat.receipts })
      ∙ ap (order_by (λ m. m.sent_at)) (
          select-ext _ _ chat.messages (
            All-intro _
              (λ m.
                ap (λ b. m.conversation_id == c && b)
                  (mark_delivered-others now other m.id ids chat.receipts apart))
              chat.messages))

  -- A fetch by a device takes nothing from any other device, in any conversation.
  pub fetch_and_ack_pending-pending :
      (now from other : ℕ) (chat : Chat)
      → other ≢ device
      → pending c device (fetch_and_ack_pending now from other chat).1 ≡ pending c device chat
  unfolding fetch_and_ack_pending
  fetch_and_ack_pending-pending now from other chat apart = go (pending from other chat)
    where
      go :
          (ms : List Message)
          → pending c device (
              let r : List Message × Chat = elim ms [
                | [] ↦ ([], chat)
                | m ∷ rest ↦ (m ∷ rest, acknowledge now other (map (λ x. x.id) (m ∷ rest)) chat)
              ] in
              r.1)
            ≡ pending c device chat
      go [] = refl
      go (m ∷ rest) = acknowledge-pending now other (map (λ x. x.id) (m ∷ rest)) chat apart
