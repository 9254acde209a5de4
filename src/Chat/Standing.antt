-- ===== src/Chat/Standing.antt =====
-- The chat's invariant over any sequence of its transactions.
use rustdesk_managed_directo.Common.{
  ℕ, String, ◌≡◌, refl, sym, ap, ◌∙◌, Bool, true, false, not, ◌&&◌, ◌||◌, List, [], ◌∷◌, ◌==◌,
  arith, inl, inr, Option-cases, Bool-cases, All, All-mono, map, select, exists_where, find_where,
}
use rustdesk_managed_directo.Common.Picks.{exists_where-All}
use rustdesk_managed_directo.Http.{Outcome, done, raised, http, ◌>>=◌}
use rustdesk_managed_directo.Http.Keeps.{
  Ends, Keeps, Keeps-bind, Keeps-raise_if, Hoare-bind, Hoare-raise_if, Hoare-fact,
}
use rustdesk_managed_directo.Store.Rules.{Keeps-found}
use rustdesk_managed_directo.Chat.{Participant, Receipt, Chat}
use rustdesk_managed_directo.Chat.Mailbox.{is_undelivered, one_of}
use rustdesk_managed_directo.Chat.Handlers.{
  direct_pair_key, has_pair_key, is_peer, takes_part, conversation_summary, insert_conversation,
  ensure_conversation, start_conversation, require_participant, get_messages, recipients_of,
  insert_receipts, post_message, catch_up, conversation_ids,
}
use rustdesk_managed_directo.Chat.Awaited.{
  Waiting, Mailbox, fetch-Mailbox, drain_each-Mailbox, settle-Mailbox, sweep-Mailbox,
}
use rustdesk_managed_directo.Chat.Steps.{
  Step, start, post, settled, fetch, caught_up, swept, tables_after, step, steps,
}

-- Another device takes part in the conversation.
unfoldable pub is_partner : ℕ → ℕ → Participant → Bool
is_partner c device p = p.conversation_id == c && not (p.device_id == device)

-- Every participant has a partner.
abbrev pub Paired : List Participant → Type 0
Paired ps = All (λ p. exists_where (is_partner p.conversation_id p.device_id) ps ≡ true) ps

-- Every message still waits for someone, and every participant has a partner.
pub record Standing (chat : Chat) : Type 0 where
  pub waiting : Waiting [] chat
  pub paired : Paired chat.participants

Mailbox-Standing : (chat t : Chat) → Standing chat → Mailbox chat.participants t → Standing t
Mailbox-Standing chat t s (w, e) = record { waiting = w; paired = rw e s.paired }

-- One receipt at least is inserted for a participant with a partner.
recipients-undelivered :
    (id c self : ℕ) (ps : List Participant) (rs : List Receipt)
    → exists_where (is_partner c self) ps ≡ true
    → exists_where (is_undelivered id) (insert_receipts id (recipients_of c self ps) rs) ≡ true
unfolding recipients_of insert_receipts is_undelivered is_partner exists_where select map
recipients-undelivered id c self [] rs h = cc h
recipients-undelivered id c self (p ∷ ps) rs h =
    elim (Bool-cases (p.conversation_id == c && not (p.device_id == self))) [
      | inl e ↦ rw (e, map, insert_receipts) (ground arith)
      | inr e ↦ rw e (recipients-undelivered id c self ps rs (ground (arith, h, e)))
    ]

insert_receipts-undelivered :
    (k id : ℕ) (ds : List ℕ) (rs : List Receipt)
    → exists_where (is_undelivered k) rs ≡ true
    → exists_where (is_undelivered k) (insert_receipts id ds rs) ≡ true
unfolding insert_receipts exists_where
insert_receipts-undelivered k id [] rs h = h
insert_receipts-undelivered k id (d ∷ ds) rs h =
    ground (arith, insert_receipts-undelivered k id ds rs h)

or-none : (b : Bool) (k : ℕ) → (b || one_of [] k) ≡ true → b ≡ true
unfolding one_of exists_where
or-none b k h = ground (arith, h)

-- A participant has a partner.
partner :
    (c self : ℕ) (ps : List Participant)
    → exists_where (takes_part c self) ps ≡ true
    → Paired ps
    → exists_where (is_partner c self) ps ≡ true
unfolding takes_part
partner c self ps e h =
    let x =
      exists_where-All (λ p. exists_where (is_partner p.conversation_id p.device_id) ps ≡ true)
        (takes_part c self) ps e h in
    let a : x.0.conversation_id ≡ c = ground (arith, x.1) in
    let b : x.0.device_id ≡ self = ground (arith, x.1) in
    ap (λ (i : ℕ). exists_where (is_partner i self) ps) (sym a)
    ∙ ap (λ (i : ℕ). exists_where (is_partner x.0.conversation_id i) ps) (sym b)
    ∙ x.2

post-Standing :
    (id now c self : ℕ) (body : String) (chat : Chat)
    → Standing chat
    → Standing (tables_after chat (post_message id now c self body chat))
unfolding post_message require_participant ◌>>=◌
post-Standing id now c self body chat s =
    elim (Bool-cases (exists_where (takes_part c self) chat.participants)) [
      | inl e ↦ rw e (record {
        waiting = (
          ap (λ b. b || one_of [] id)
              (recipients-undelivered id c self chat.participants chat.receipts
                (partner c self chat.participants e s.paired)),
          All-mono
              (λ m w.
                ap (λ b. b || one_of [] m.id)
                  (insert_receipts-undelivered m.id id _ chat.receipts (or-none _ m.id w)))
              chat.messages s.waiting,
        );
        paired = s.paired;
      })
      | inr e ↦ rw e s
    ]

fetch-Standing :
    (now c self : ℕ) (chat : Chat)
    → Standing chat
    → Standing (tables_after chat (get_messages now c self chat))
unfolding get_messages require_participant ◌>>=◌
fetch-Standing now c self chat s =
    elim (Bool-cases (exists_where (takes_part c self) chat.participants)) [
      | inl e ↦ rw e (
          Mailbox-Standing chat _ s
            (fetch-Mailbox chat.participants now c self chat (s.waiting, refl)))
      | inr e ↦ rw e s
    ]

-- Two participants more, each the partner of the other.
pair-Paired :
    (c a b : ℕ) (ps : List Participant)
    → (b == a) ≡ false
    → Paired ps
    → Paired (
        record { conversation_id = c; device_id = a }
        ∷ record { conversation_id = c; device_id = b }
        ∷ ps)
unfolding is_partner exists_where
pair-Paired c a b ps apart h =
    (ground (arith, apart), (ground (arith, apart), All-mono (λ p e. ground (arith, e)) ps h))

insert_conversation-Standing :
    (id now self peer : ℕ) (chat : Chat)
    → (peer == self) ≡ false
    → Standing chat
    → Standing (insert_conversation id now self peer chat)
unfolding insert_conversation
insert_conversation-Standing id now self peer chat apart s = record {
  waiting = s.waiting;
  paired = pair-Paired id self peer chat.participants apart s.paired;
}

-- A summary changes nothing.
pub summary-Keeps : (P : Chat → Type 0) (id : ℕ) → Keeps P (conversation_summary id)
unfolding conversation_summary ◌>>=◌
summary-Keeps P id = record {
  at = λ chat h. elim (Option-cases (find_where (λ c. c.id == id) chat.conversations)) [
    | inl e ↦ rw (conversation_summary, e) tt
    | inr (c, e) ↦ rw (conversation_summary, e) h
  ];
}

ensure-Keeps :
    (id now self peer : ℕ)
    → (peer == self) ≡ false
    → Keeps Standing (ensure_conversation id now self peer)
unfolding ensure_conversation ◌>>=◌
ensure-Keeps id now self peer apart = record {
  at = λ chat h.
      elim (Option-cases
        (find_where (has_pair_key (direct_pair_key self peer)) chat.conversations)) [
          | inl e ↦
              rw (ensure_conversation, e)
                (insert_conversation-Standing id now self peer chat apart h)
          | inr (c, e) ↦ rw (ensure_conversation, e) h
        ];
}

start-Keeps :
    (id now self : ℕ) (rustdesk_id : String)
    → Keeps Standing (start_conversation id now self rustdesk_id)
unfolding start_conversation
start-Keeps id now self rustdesk_id =
    Keeps-bind _ _ (Keeps-found Standing (λ chat. find_where (is_peer rustdesk_id) chat.devices) _)
      λ peer. Keeps-bind _ _ (Keeps-raise_if _ _) λ _.
        Hoare-bind _ _
          (Hoare-raise_if (peer.id == self) (http 400 "Cannot start a conversation with yourself"))
          λ _. Hoare-fact _ λ apart.
            Keeps-bind _ _ (ensure-Keeps id now self peer.id apart)
              λ conversation. summary-Keeps Standing conversation

tables_after-holds :
    {A : Type 0} (P : Chat → Type 0) (chat : Chat) (o : Outcome Chat A)
    → Ends (λ _ t. P t) o
    → P chat
    → P (tables_after chat o)
tables_after-holds P chat (done a t) h k = h
tables_after-holds P chat (raised e) h k = k

pub step-Standing : (s : Step) (chat : Chat) → Standing chat → Standing (step s chat)
unfolding step catch_up
step-Standing (start id now self peer) chat h =
    tables_after-holds Standing chat _ ((start-Keeps id now self peer).at chat h) h
step-Standing (post id now conversation self body) chat h =
    post-Standing id now conversation self body chat h
step-Standing (settled now message devices) chat h =
    Mailbox-Standing chat _ h
      (settle-Mailbox chat.participants now message devices chat (h.waiting, refl))
step-Standing (fetch now conversation self) chat h = fetch-Standing now conversation self chat h
step-Standing (caught_up now self) chat h = Mailbox-Standing chat _ h (
    drain_each-Mailbox chat.participants now self (conversation_ids self chat.participants) chat
      (h.waiting, refl))
step-Standing (swept now) chat h =
    Mailbox-Standing chat _ h (sweep-Mailbox chat.participants now chat (h.waiting, refl))

-- In whatever order the transactions of the chat run, from tables where it is so every message that
-- the server holds still waits for a device, and every participant of a conversation has a partner.
pub steps-Standing : (ss : List Step) (chat : Chat) → Standing chat → Standing (steps ss chat)
unfolding steps
steps-Standing [] chat h = h
steps-Standing (s ∷ ss) chat h = steps-Standing ss (step s chat) (step-Standing s chat h)
