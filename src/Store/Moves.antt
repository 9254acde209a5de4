-- ===== src/Store/Moves.antt =====
-- The moves of a device's status that the directory allows in one request.
use rustdesk_managed_directo.Common.{Option, none, some}
use rustdesk_managed_directo.Store.{Status, pending, approved, denied, blocked, revoked}

-- From no record, or a status, to a status.
pub data Move : Option Status → Option Status → Type 0 where
  stay : (s : Option Status) → Move s s
  enrolled : Move none (some pending)
  approves_pending : Move (some pending) (some approved)
  approves_denied : Move (some denied) (some approved)
  denies : Move (some pending) (some denied)
  blocks_pending : Move (some pending) (some blocked)
  blocks_approved : Move (some approved) (some blocked)
  revokes : Move (some approved) (some revoked)
  readmits_denied : Move (some denied) (some pending)
  readmits_blocked : Move (some blocked) (some pending)
