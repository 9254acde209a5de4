-- ===== src/Chat/Pairs.antt =====
-- A pair of devices has one conversation, whoever starts it.
use rustdesk_managed_directo.Common.{
  ℕ, ◌≡◌, refl, ap, ◌∙◌, min, max, true, none, some, ◌==◌, arith, inl, inr, Option-cases,
  find_where,
}
use rustdesk_managed_directo.Http.{done, ◌>>=◌}
use rustdesk_managed_directo.Http.Keeps.{Returns}
use rustdesk_managed_directo.Chat.{Conversation, Chat}
use rustdesk_managed_directo.Chat.Handlers.{
  direct_pair_key, has_pair_key, insert_conversation, ensure_conversation,
}

direct_pair_key_comm : (a b : ℕ) → direct_pair_key a b ≡ direct_pair_key b a
unfolding direct_pair_key
direct_pair_key_comm a b =
    let lo : min a b ≡ min b a = omega arith in
    let hi : max a b ≡ max b a = omega arith in rw (lo, hi) refl

find_inserted :
    (id now a b : ℕ) (chat : Chat)
    → (c : Conversation) × (find_where
          (has_pair_key (direct_pair_key a b))
          (insert_conversation id now a b chat).conversations
        ≡ some c)
      × (c.id ≡ id)
unfolding has_pair_key insert_conversation find_where direct_pair_key
find_inserted id now a b chat =
    let lo : (min a b == min a b) ≡ true = ground arith in
    let hi : (max a b == max a b) ≡ true = ground arith in
    (
      record {
        id = id;
        direct_pair_key = some (min a b, max a b);
        created_by = a;
        created_at = now;
      },
      rw (lo, hi) refl,
      refl,
    )

ensure-present :
    (id now a b : ℕ) (chat : Chat) (c : Conversation)
    → find_where (has_pair_key (direct_pair_key a b)) chat.conversations ≡ some c
    → ensure_conversation id now a b chat ≡ done c.id chat
unfolding ensure_conversation ◌>>=◌
ensure-present id now a b chat c e = rw (ensure_conversation, e) refl

ensure-absent :
    (id now a b : ℕ) (chat : Chat)
    → find_where (has_pair_key (direct_pair_key a b)) chat.conversations ≡ none
    → ensure_conversation id now a b chat ≡ done id (insert_conversation id now a b chat)
unfolding ensure_conversation ◌>>=◌
ensure-absent id now a b chat e = rw (ensure_conversation, e) refl

-- The conversation of two devices is always found or opened; if then the other device asks for it,
-- with any new id and at any time, it is given the same one, and nothing changes.
pub ensure_conversation-same :
    (id now later_id later a b : ℕ) (chat : Chat)
    → Returns
        (λ c t. ensure_conversation later_id later b a t ≡ done c t)
        (ensure_conversation id now a b chat)
ensure_conversation-same id now later_id later a b chat =
    elim (Option-cases (find_where (has_pair_key (direct_pair_key a b)) chat.conversations)) [
      | inl e ↦
          let c = find_inserted id now a b chat in
          rw (ensure-absent id now a b chat e) (
            ensure-present later_id later b a (insert_conversation id now a b chat) c.0 (
              ap
                (λ k.
                  find_where (has_pair_key k) (insert_conversation id now a b chat).conversations)
                (direct_pair_key_comm b a)
              ∙ c.1)
            ∙ ap (λ (i : ℕ). done i (insert_conversation id now a b chat)) c.2)
      | inr (c, e) ↦ rw (ensure-present id now a b chat c e) (
          ensure-present later_id later b a chat c (
            ap (λ k. find_where (has_pair_key k) chat.conversations) (direct_pair_key_comm b a)
            ∙ e))
    ]
