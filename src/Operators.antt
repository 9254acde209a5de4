-- ===== src/Operators.antt =====
-- Operators: main.py `require_operator` and the gates that routes add to it.
pub mod Gates
pub mod Sessions
pub mod SignedIn
pub mod SignIn
pub mod Refresh
pub mod Lockout
pub mod Attempts
pub mod SignedOut
pub mod RoundTrip
pub mod Accounts
pub mod Disabled
pub mod Revoked
pub mod Invitations
pub mod Changes
pub mod Completion
pub mod Steps
pub mod Staffed
pub mod Proven
pub mod Joined
pub mod Promoted
pub mod Restored
pub mod Deletion
pub mod Resets
