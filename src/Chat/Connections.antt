-- ===== src/Chat/Connections.antt =====
-- managed_chat.py `ConnectionManager`. A socket is a number; whether a socket takes a message is a
-- parameter.
use rustdesk_managed_directo.Common.{
  ℕ, Bool, true, false, not, Option, none, some, List, [], ◌∷◌, ◌==◌, if◌then◌else◌, select,
  find_where,
}

pub record Connection : Type 0 where
  pub device_id : ℕ
  pub socket : ℕ

-- self._connections.get(device_id)
unfoldable pub connected : ℕ → List Connection → Option ℕ
connected device cs = elim (find_where (λ c. c.device_id == device) cs) [
  | none ↦ none
  | some c ↦ some c.socket
]

-- del self._connections[device_id]
unfoldable pub drop_connection : ℕ → List Connection → List Connection
drop_connection device cs = select (λ c. not (c.device_id == device)) cs

-- `connect`: the earlier socket is closed, which changes no entry.
unfoldable pub connect : ℕ → ℕ → List Connection → List Connection
connect device socket cs =
    record { device_id = device; socket = socket } ∷ drop_connection device cs

-- `disconnect`: only the socket that is registered.
unfoldable pub disconnect : ℕ → ℕ → List Connection → List Connection
disconnect device socket cs = elim (connected device cs) [
  | none ↦ cs
  | some s ↦ if s == socket then drop_connection device cs else cs
]

-- `push`: whether the device took the message, and the connections afterwards.
unfoldable pub push : (ℕ → Bool) → ℕ → List Connection → Bool × List Connection
push takes device cs = elim (connected device cs) [
  | none ↦ (false, cs)
  | some s ↦ if takes s then (true, cs) else (false, disconnect device s cs)
]

-- One push to each recipient: `delivered_to`, and the connections afterwards.
unfoldable pub push_all : (ℕ → Bool) → List ℕ → List Connection → List ℕ × List Connection
push_all takes [] cs = ([], cs)
push_all takes (d ∷ ds) cs =
    let first = push takes d cs in
    let rest = push_all takes ds first.1 in (if first.0 then d ∷ rest.0 else rest.0, rest.1)
