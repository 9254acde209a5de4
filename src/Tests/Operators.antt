-- ===== src/Tests/Operators.antt =====
-- An operator's session, and a request with its token.
use rustdesk_managed_directo.Common.{◌≡◌, none, some, [], ◌∷◌}
use rustdesk_managed_directo.Http.Keeps.{Ends}
use rustdesk_managed_directo.Store.{owner, full, Session, Db}
use rustdesk_managed_directo.Store.Env.{Env}
use rustdesk_managed_directo.Operators.Sessions.{require_operator, touch_session}
use rustdesk_managed_directo.Operators.SignedIn.{LetIn, require_operator-LetIn}
use rustdesk_managed_directo.Tests.{env, db}

abbrev session : Session
session = record {
  id = 20;
  account_id = 10;
  access_token_hash = "access-20";
  refresh_token_hash = "refresh-20";
  mfa_verified_at = some 60;
  created_at = 60;
  expires_at = 5000;
  last_seen_at = none;
  revoked_at = none;
  scope = full;
}

abbrev with_session : Db
with_session = record db { sessions = session ∷ [] }

abbrev reading_access : Env
reading_access = record env {
  decode_access = λ token now. some (record {
    sub = 10;
    sid = 20;
    role = owner;
    scope = full;
    kind = "access";
    iat = 60;
    exp = 5000;
    jti = 1;
  });
}

require_operator-LetIn_example :
    Ends
      (λ o t.
        LetIn reading_access 100 "access-20" with_session o
        × (t ≡ record with_session {
          sessions = touch_session o.session_id 100 with_session.sessions;
        }))
      (require_operator reading_access 100 (some "access-20") with_session)
require_operator-LetIn_example = require_operator-LetIn reading_access 100 "access-20" with_session
