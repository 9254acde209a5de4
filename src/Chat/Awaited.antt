-- ===== src/Chat/Awaited.antt =====
-- The server is a mailbox: every message it holds still waits for a recipient.
use rustdesk_managed_directo.Common.{
  ℕ, ◌≡◌, refl, sym, ap, ◌∙◌, Bool, true, false, not, ◌&&◌, ◌||◌, some, List, [], ◌∷◌, ◌==◌, arith,
  inl, inr, Bool-cases, All, All-mono, map, exists_where, update_where,
}
use rustdesk_managed_directo.Common.Picks.{
  All-zip, select-All, select-when, exists_where-update_where,
}
use rustdesk_managed_directo.Chat.{Participant, Message, Receipt, Chat}
use rustdesk_managed_directo.Chat.Mailbox.{
  is_undelivered, has_id, delete_messages, purge_if_fully_delivered, purge_each, one_of,
  mark_delivered, pending, acknowledge, fetch_and_ack_pending, sweep,
}
use rustdesk_managed_directo.Chat.Handlers.{mark_pushed, settle, drain_each}
use rustdesk_managed_directo.Chat.Untouched.{delete_messages-kept, stay}

-- Every message waits for someone, or its id is among those that are yet to be purged.
abbrev pub Waiting : List ℕ → Chat → Type 0
Waiting ids chat =
    All (λ m. (exists_where (is_undelivered m.id) chat.receipts || one_of ids m.id) ≡ true)
      chat.messages

undelivered-message : (k : ℕ) (r : Receipt) → is_undelivered k r ≡ true → r.message_id ≡ k
unfolding is_undelivered
undelivered-message k r h = ground arith

delete_messages-Waiting :
    (p : Message → Bool) (ids : List ℕ) (chat : Chat)
    → Waiting ids chat
    → Waiting ids (delete_messages p chat)
unfolding delete_messages
delete_messages-Waiting p ids chat h =
    select-when _ (λ m. not (p m)) chat.messages
      (All-zip _ _ _
        (λ m w s e.
          let same =
            delete_messages-kept (is_undelivered m.id) p m.id chat (undelivered-message m.id)
              (s e) in
          ap (λ b. b || one_of ids m.id) same ∙ w)
        chat.messages h (stay p chat.messages))

one_of-other :
    (k id : ℕ) (ids : List ℕ) → one_of (id ∷ ids) k ≡ true → (id == k) ≡ false → one_of ids k ≡ true
unfolding one_of exists_where
one_of-other k id ids h e = ground (arith, h, e)

one_of-none : (k : ℕ) → one_of [] k ≡ false
unfolding one_of exists_where
one_of-none k = refl

not-has_id : (id : ℕ) (m : Message) → not (has_id id m) ≡ true → (id == m.id) ≡ false
unfolding has_id
not-has_id id m h = ground (arith, h)

remaining :
    (id k : ℕ) (ids : List ℕ) (b : Bool)
    → (b || one_of (id ∷ ids) k) ≡ true
    → (id == k) ≡ false
    → (b || one_of ids k) ≡ true
remaining id k ids b h e = ground (arith, h, one_of-other k id ids, e)

kept-id :
    (id : ℕ) (chat : Chat)
    → All (λ m. (id == m.id) ≡ false) (delete_messages (has_id id) chat).messages
unfolding delete_messages
kept-id id chat =
    All-mono (λ m k. not-has_id id m k) _ (select-All (λ m. not (has_id id m)) chat.messages)

deleted-Waiting :
    (id : ℕ) (ids : List ℕ) (chat : Chat)
    → Waiting (id ∷ ids) chat
    → Waiting ids (delete_messages (has_id id) chat)
deleted-Waiting id ids chat h =
    All-zip _ _ _ (λ m w k. remaining id m.id ids _ w k) (delete_messages (has_id id) chat).messages
      (delete_messages-Waiting (has_id id) (id ∷ ids) chat h) (kept-id id chat)

one_of-same : (id k : ℕ) → (k == id) ≡ true → one_of (id ∷ []) k ≡ true
unfolding one_of exists_where
one_of-same id k h = ground (arith, h)

purge-Waiting :
    (id : ℕ) (ids : List ℕ) (chat : Chat)
    → Waiting (id ∷ ids) chat
    → Waiting ids (purge_if_fully_delivered id chat)
unfolding purge_if_fully_delivered
purge-Waiting id ids chat h = elim (Bool-cases (exists_where (is_undelivered id) chat.receipts)) [
  | inl e ↦ rw e (
      All-mono
        (λ m w. elim (Bool-cases (id == m.id)) [
          | inl same ↦
              let s : id ≡ m.id = ground (arith, same) in
              let t : exists_where (is_undelivered m.id) chat.receipts ≡ true =
                ap (λ (i : ℕ). exists_where (is_undelivered i) chat.receipts) (sym s) ∙ e in
              ground (arith, t)
          | inr other ↦ ground (arith, w, one_of-other m.id id ids, other)
        ])
        chat.messages h)
  | inr e ↦ rw e (deleted-Waiting id ids chat h)
]

purge_each-Waiting :
    (ids : List ℕ) (chat : Chat) → Waiting ids chat → Waiting [] (purge_each ids chat)
unfolding purge_each
purge_each-Waiting [] chat h = h
purge_each-Waiting (id ∷ ids) chat h =
    purge_each-Waiting ids (purge_if_fully_delivered id chat) (purge-Waiting id ids chat h)

module _ (now : ℕ) (ids : List ℕ) (p : Receipt → Bool)
    (h : (r : Receipt) → p r ≡ true → one_of ids r.message_id ≡ true) where
  marked-undelivered :
      (k : ℕ) (rs : List Receipt)
      → one_of ids k ≡ false
      → exists_where
          (is_undelivered k)
          (update_where p (λ r. record r { delivered_at = some now }) rs)
        ≡ exists_where (is_undelivered k) rs
  unfolding is_undelivered
  marked-undelivered k rs e =
      exists_where-update_where (is_undelivered k) p (λ r. record r { delivered_at = some now })
        (λ r f. elim (Bool-cases (r.message_id == k)) [
          | inl same ↦
              let s : r.message_id ≡ k = ground (arith, same) in
              let t : one_of ids k ≡ true = sym (ap (one_of ids) s) ∙ h r f in cc (t, e)
          | inr other ↦ rw other refl
        ])
        rs

  marked-Waiting :
      (chat : Chat)
      → Waiting [] chat
      → Waiting ids (record chat {
        receipts = update_where p (λ r. record r { delivered_at = some now }) chat.receipts;
      })
  marked-Waiting chat w =
      All-mono
        (λ m f. elim (Bool-cases (one_of ids m.id)) [
          | inl e ↦ ground (arith, e)
          | inr e ↦ ground (arith, e, f, one_of-none m.id, marked-undelivered m.id chat.receipts e)
        ])
        chat.messages w

purge-participants :
    (id : ℕ) (chat : Chat) → (purge_if_fully_delivered id chat).participants ≡ chat.participants
unfolding purge_if_fully_delivered delete_messages
purge-participants id chat = elim (Bool-cases (exists_where (is_undelivered id) chat.receipts)) [
  | inl e ↦ rw e refl
  | inr e ↦ rw e refl
]

purge_each-participants :
    (ids : List ℕ) (chat : Chat) → (purge_each ids chat).participants ≡ chat.participants
unfolding purge_each
purge_each-participants [] chat = refl
purge_each-participants (id ∷ ids) chat =
    purge_each-participants ids (purge_if_fully_delivered id chat) ∙ purge-participants id chat

-- A mailbox whose participants are given.
abbrev pub Mailbox : List Participant → Chat → Type 0
Mailbox ps chat = Waiting [] chat × (chat.participants ≡ ps)

module _ (ps : List Participant) where
  acknowledge-Mailbox :
      (now device : ℕ) (ids : List ℕ) (chat : Chat)
      → Mailbox ps chat
      → Mailbox ps (acknowledge now device ids chat)
  unfolding acknowledge mark_delivered
  acknowledge-Mailbox now device ids chat (w, e) = (
    purge_each-Waiting ids (record chat { receipts = mark_delivered now device ids chat.receipts })
        (marked-Waiting now ids (λ r. r.device_id == device && one_of ids r.message_id)
          (λ r h. ground arith) chat w),
    purge_each-participants ids
          (record chat { receipts = mark_delivered now device ids chat.receipts })
        ∙ e,
  )

  pub fetch-Mailbox :
      (now c device : ℕ) (chat : Chat)
      → Mailbox ps chat
      → Mailbox ps (fetch_and_ack_pending now c device chat).1
  unfolding fetch_and_ack_pending
  fetch-Mailbox now c device chat h = go (pending c device chat)
    where
      go :
          (ms : List Message)
          → Mailbox ps (
              let r : List Message × Chat = elim ms [
                | [] ↦ ([], chat)
                | m ∷ rest ↦ (m ∷ rest, acknowledge now device (map (λ x. x.id) (m ∷ rest)) chat)
              ] in
              r.1)
      go [] = h
      go (m ∷ rest) = acknowledge-Mailbox now device (map (λ x. x.id) (m ∷ rest)) chat h

  pub drain_each-Mailbox :
      (now self : ℕ) (cs : List ℕ) (chat : Chat)
      → Mailbox ps chat
      → Mailbox ps (drain_each now self cs chat).1
  unfolding drain_each
  drain_each-Mailbox now self [] chat h = h
  drain_each-Mailbox now self (c ∷ cs) chat h =
      drain_each-Mailbox now self cs (fetch_and_ack_pending now c self chat).1
        (fetch-Mailbox now c self chat h)

  pub settle-Mailbox :
      (now message : ℕ) (devices : List ℕ) (chat : Chat)
      → Mailbox ps chat
      → Mailbox ps (settle now message devices chat)
  unfolding settle mark_pushed
  settle-Mailbox now message [] chat h = h
  settle-Mailbox now message (d ∷ ds) chat (w, e) = (
    purge-Waiting message []
        (record chat { receipts = mark_pushed now message (d ∷ ds) chat.receipts })
        (marked-Waiting now (message ∷ [])
          (λ r. r.message_id == message && one_of (d ∷ ds) r.device_id)
          (λ r h. one_of-same message r.message_id (ground (arith, h))) chat w),
    purge-participants message
          (record chat { receipts = mark_pushed now message (d ∷ ds) chat.receipts })
        ∙ e,
  )

  pub sweep-Mailbox : (now : ℕ) (chat : Chat) → Mailbox ps chat → Mailbox ps (sweep now chat)
  unfolding sweep delete_messages
  sweep-Mailbox now chat (w, e) = (delete_messages-Waiting _ [] chat w, e)
