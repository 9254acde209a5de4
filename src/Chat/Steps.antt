-- ===== src/Chat/Steps.antt =====
-- The chat as a sequence of transactions: a route of managed_chat.py is one or two of them, and those
-- of different routes may come in any order.
use rustdesk_managed_directo.Common.{ℕ, String, List, [], ◌∷◌}
use rustdesk_managed_directo.Http.{Outcome, done, raised}
use rustdesk_managed_directo.Chat.{Chat}
use rustdesk_managed_directo.Chat.Mailbox.{sweep}
use rustdesk_managed_directo.Chat.Handlers.{
  start_conversation, get_messages, post_message, settle, catch_up,
}

-- In this order: an id for a new row, the time, and what the route is given.
pub data Step : Type 0 where
  start : ℕ → ℕ → ℕ → String → Step
  post : ℕ → ℕ → ℕ → ℕ → String → Step
  settled : ℕ → ℕ → List ℕ → Step
  fetch : ℕ → ℕ → ℕ → Step
  caught_up : ℕ → ℕ → Step
  swept : ℕ → Step

abbrev pub tables_after : {A : Type 0} → Chat → Outcome Chat A → Chat
tables_after chat (done a t) = t
tables_after chat (raised e) = chat

-- The tables after a transaction, committed or rolled back.
unfoldable pub step : Step → Chat → Chat
step (start id now self peer) chat = tables_after chat (start_conversation id now self peer chat)
step (post id now conversation self body) chat =
    tables_after chat (post_message id now conversation self body chat)
step (settled now message devices) chat = settle now message devices chat
step (fetch now conversation self) chat =
    tables_after chat (get_messages now conversation self chat)
step (caught_up now self) chat = (catch_up now self chat).1
step (swept now) chat = sweep now chat

unfoldable pub steps : List Step → Chat → Chat
steps [] chat = chat
steps (s ∷ ss) chat = steps ss (step s chat)
