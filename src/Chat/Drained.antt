-- ===== src/Chat/Drained.antt =====
-- What a fetch of `_fetch_and_ack_pending` leaves for the device that fetched: nothing.
use rustdesk_managed_directo.Common.{
  ℕ, ◌≡◌, refl, sym, ap, ◌∙◌, Bool, true, false, not, ◌&&◌, some, List, [], ◌∷◌, ◌==◌, arith, inl,
  inr, Bool-cases, All, All-mono, map, select, exists_where,
}
use rustdesk_managed_directo.Common.Picks.{
  All-select, exists_where-select, exists_where-order_by, select-exists, exists_where-emptied,
  exists_where-less,
}
use rustdesk_managed_directo.Chat.{Message, Receipt, Chat}
use rustdesk_managed_directo.Chat.Mailbox.{
  is_pending_for, is_undelivered, has_id, delete_messages, purge_if_fully_delivered, purge_each,
  one_of, mark_delivered, waits, pending, acknowledge, fetch_and_ack_pending,
}

-- Nothing waits for the device in the conversation.
abbrev pub Cleared : ℕ → ℕ → Chat → Type 0
Cleared c device chat = All (λ m. waits chat c device m ≡ false) chat.messages

-- Rows of receipts that go leave nothing to wait for where there was nothing.
waits-fewer :
    (chat : Chat) (k : Receipt → Bool) (messages : List Message) (c device : ℕ) (m : Message)
    → waits chat c device m ≡ false
    → waits (record chat { messages = messages; receipts = select k chat.receipts }) c device m
      ≡ false
unfolding waits
waits-fewer chat k messages c device m h =
    ground (arith, exists_where-select (is_pending_for m.id device) k chat.receipts)

delete_messages-Cleared :
    (p : Message → Bool) (c device : ℕ) (chat : Chat)
    → Cleared c device chat
    → Cleared c device (delete_messages p chat)
unfolding delete_messages
delete_messages-Cleared p c device chat h =
    All-mono (λ m k. waits-fewer chat _ _ c device m k) _
      (All-select _ (λ m. not (p m)) chat.messages h)

purge-Cleared :
    (id c device : ℕ) (chat : Chat)
    → Cleared c device chat
    → Cleared c device (purge_if_fully_delivered id chat)
unfolding purge_if_fully_delivered
purge-Cleared id c device chat h =
    elim (Bool-cases (exists_where (is_undelivered id) chat.receipts)) [
      | inl e ↦ rw e h
      | inr e ↦ rw e (delete_messages-Cleared (has_id id) c device chat h)
    ]

pub purge_each-Cleared :
    (ids : List ℕ) (c device : ℕ) (chat : Chat)
    → Cleared c device chat
    → Cleared c device (purge_each ids chat)
unfolding purge_each
purge_each-Cleared [] c device chat h = h
purge_each-Cleared (id ∷ ids) c device chat h =
    purge_each-Cleared ids c device (purge_if_fully_delivered id chat)
      (purge-Cleared id c device chat h)

-- The ids of the fetched messages.
one_of-ids :
    (k : ℕ) (ms : List Message) → one_of (map (λ m. m.id) ms) k ≡ exists_where (has_id k) ms
unfolding one_of exists_where map has_id
one_of-ids k [] = refl
one_of-ids k (m ∷ ms) = rw (exists_where, one_of-ids k ms) refl

pub has_id_self : (m : Message) → has_id m.id m ≡ true
unfolding has_id
has_id_self m = ground arith

fetched :
    (c device : ℕ) (chat : Chat)
    → All
        (λ m.
          waits chat c device m ≡ true
          → one_of (map (λ x. x.id) (pending c device chat)) m.id ≡ true)
        chat.messages
unfolding pending
fetched c device chat =
    All-mono
      (λ m h e.
        one_of-ids m.id (pending c device chat)
        ∙ exists_where-order_by (has_id m.id) (λ x. x.sent_at)
            (select (waits chat c device) chat.messages)
        ∙ h e)
      chat.messages
      (select-exists (waits chat c device) (λ m. has_id m.id) has_id_self chat.messages)

-- The update leaves no open receipt of the device for the messages.
marked :
    (now device k : ℕ) (ids : List ℕ) (rs : List Receipt)
    → one_of ids k ≡ true
    → exists_where (is_pending_for k device) (mark_delivered now device ids rs) ≡ false
unfolding mark_delivered is_pending_for
marked now device k ids rs h =
    exists_where-emptied (is_pending_for k device) _ _ (λ r e. ground arith)
      (λ r e. elim (Bool-cases (r.message_id == k)) [
        | inl same ↦
            let s : r.message_id ≡ k = ground (arith, same) in
            let t : one_of ids r.message_id ≡ true = ap (one_of ids) s ∙ h in ground (arith, t, e)
        | inr other ↦ rw other refl
      ])
      rs

pub mark_delivered-none :
    (now device k : ℕ) (ids : List ℕ) (rs : List Receipt)
    → exists_where (is_pending_for k device) rs ≡ false
    → exists_where (is_pending_for k device) (mark_delivered now device ids rs) ≡ false
unfolding mark_delivered is_pending_for
mark_delivered-none now device k ids rs h =
    exists_where-less (is_pending_for k device)
      (λ r. r.device_id == device && one_of ids r.message_id)
      (λ r. record r { delivered_at = some now }) (λ r e. ground arith) rs h

acknowledge-Cleared :
    (now c device : ℕ) (chat : Chat)
    → Cleared c device (acknowledge now device (map (λ x. x.id) (pending c device chat)) chat)
unfolding acknowledge waits
acknowledge-Cleared now c device chat =
    let ids = map (λ x. x.id) (pending c device chat) in
    purge_each-Cleared ids c device
      (record chat { receipts = mark_delivered now device ids chat.receipts })
      (All-mono
        (λ m h. elim (Bool-cases (waits chat c device m)) [
          | inl e ↦ let g = marked now device m.id ids chat.receipts (h e) in ground (arith, g)
          | inr e ↦ ground (arith, mark_delivered-none now device m.id ids chat.receipts, e)
        ])
        chat.messages (fetched c device chat))

none_fetched :
    (b : Bool) (k : ℕ) → (b ≡ true → one_of (map (λ (m : Message). m.id) []) k ≡ true) → b ≡ false
unfolding one_of exists_where map
none_fetched true k h = sym (h refl)
none_fetched false k h = refl

-- After a fetch nothing waits for the device in the conversation.
pub fetch_and_ack_pending-Cleared :
    (now c device : ℕ) (chat : Chat) → Cleared c device (fetch_and_ack_pending now c device chat).1
unfolding fetch_and_ack_pending
fetch_and_ack_pending-Cleared now c device chat = go (pending c device chat) refl
  where
    go :
        (ms : List Message)
        → pending c device chat ≡ ms
        → Cleared c device (
            let r : List Message × Chat = elim ms [
              | [] ↦ ([], chat)
              | m ∷ rest ↦ (m ∷ rest, acknowledge now device (map (λ x. x.id) (m ∷ rest)) chat)
            ] in
            r.1)
    go [] e =
        All-mono (λ m h. none_fetched (waits chat c device m) m.id (rw e at h)) chat.messages
          (fetched c device chat)
    go (m ∷ rest) e = rw (← e) (acknowledge-Cleared now c device chat)
