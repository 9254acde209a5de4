-- ===== src/Chat/CatchUp.antt =====
-- What the catch-up of `chat_websocket` leaves on the server, whether or not its pushes arrive.
use rustdesk_managed_directo.Common.{
  ℕ, ◌≡◌, refl, subst, Bool, true, false, List, [], ◌∷◌, ◌==◌, arith, inl, inr, Bool-cases,
  Option-cases, All-mono, map, exists_where,
}
use rustdesk_managed_directo.Chat.{Message, Chat}
use rustdesk_managed_directo.Chat.Connections.{Connection, connected, push}
use rustdesk_managed_directo.Chat.Mailbox.{
  one_of, mark_delivered, waits, pending, acknowledge, fetch_and_ack_pending,
}
use rustdesk_managed_directo.Chat.Handlers.{conversation_ids, drain_each, catch_up, push_messages}
use rustdesk_managed_directo.Chat.Drained.{
  Cleared, mark_delivered-none, purge_each-Cleared, fetch_and_ack_pending-Cleared,
}
use rustdesk_managed_directo.Chat.Delivery.{Cleared-pending}

module _ (now self c : ℕ) where
  marked-Cleared :
      (ids : List ℕ) (chat : Chat)
      → Cleared c self chat
      → Cleared c self (record chat { receipts = mark_delivered now self ids chat.receipts })
  unfolding waits
  marked-Cleared ids chat h =
      All-mono (λ m e. ground (arith, mark_delivered-none now self m.id ids chat.receipts, e))
        chat.messages h

  fetch-keeps-Cleared :
      (from : ℕ) (chat : Chat)
      → Cleared c self chat
      → Cleared c self (fetch_and_ack_pending now from self chat).1
  unfolding fetch_and_ack_pending acknowledge
  fetch-keeps-Cleared from chat h = go (pending from self chat)
    where
      go :
          (ms : List Message)
          → Cleared c self (
              let r : List Message × Chat = elim ms [
                | [] ↦ ([], chat)
                | m ∷ rest ↦ (m ∷ rest, acknowledge now self (map (λ x. x.id) (m ∷ rest)) chat)
              ] in
              r.1)
      go [] = h
      go (m ∷ rest) =
          purge_each-Cleared (map (λ x. x.id) (m ∷ rest)) c self _
            (marked-Cleared (map (λ x. x.id) (m ∷ rest)) chat h)

  drain_each-keeps :
      (cs : List ℕ) (chat : Chat)
      → Cleared c self chat
      → Cleared c self (drain_each now self cs chat).1
  unfolding drain_each
  drain_each-keeps [] chat h = h
  drain_each-keeps (d ∷ ds) chat h =
      drain_each-keeps ds (fetch_and_ack_pending now d self chat).1 (fetch-keeps-Cleared d chat h)

  drain_each-Cleared :
      (cs : List ℕ) (chat : Chat)
      → one_of cs c ≡ true
      → Cleared c self (drain_each now self cs chat).1
  unfolding drain_each one_of exists_where
  drain_each-Cleared [] chat h = cc h
  drain_each-Cleared (d ∷ ds) chat h = elim (Bool-cases (d == c)) [
    | inl same ↦
        let e : d ≡ c = ground (arith, same) in
        drain_each-keeps ds (fetch_and_ack_pending now d self chat).1 (
          subst (λ (i : ℕ). Cleared i self (fetch_and_ack_pending now d self chat).1) e
            (fetch_and_ack_pending-Cleared now d self chat))
    | inr other ↦
        drain_each-Cleared ds (fetch_and_ack_pending now d self chat).1 (ground (arith, h, other))
  ]

module _ (takes : ℕ → Bool) (refuses : (socket : ℕ) → takes socket ≡ false) where
  push-refused : (device : ℕ) (cs : List Connection) → (push takes device cs).0 ≡ false
  unfolding push
  push-refused device cs = elim (Option-cases (connected device cs)) [
    | inl e ↦ rw (push, e) refl
    | inr (s, e) ↦ rw (push, e, refuses s) refl
  ]

  push_messages-refused :
      (device : ℕ) (ms : List Message) (cs : List Connection)
      → (push_messages takes device ms cs).0 ≡ []
  unfolding push_messages
  push_messages-refused device [] cs = refl
  push_messages-refused device (m ∷ ms) cs =
      rw (push-refused device cs, push_messages-refused device ms (push takes device cs).1) refl

  -- When the sockets take nothing, the catch-up of a device that connects hands it no message, and
  -- afterwards nothing waits for it in any conversation that it takes part in: what was waiting is
  -- lost to it.
  pub catch_up-pending :
      (now self c : ℕ) (chat : Chat) (cs : List Connection)
      → one_of (conversation_ids self chat.participants) c ≡ true
      → ((push_messages takes self (catch_up now self chat).0 cs).0 ≡ [])
        × (pending c self (catch_up now self chat).1 ≡ [])
  unfolding catch_up
  catch_up-pending now self c chat cs h = (
    push_messages-refused self
        (drain_each now self (conversation_ids self chat.participants) chat).0 cs,
    Cleared-pending c self _
        (drain_each-Cleared now self c (conversation_ids self chat.participants) chat h),
  )
