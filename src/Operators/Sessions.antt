-- ===== src/Operators/Sessions.antt =====
-- main.py `require_operator`: the operator's row behind an access token.
use rustdesk_managed_directo.Common.{
  ℕ, String, ◌+◌, ◌*◌, min, max, Bool, not, ◌&&◌, ◌||◌, Option, none, some, List, ◌==◌, str_eq, ltb,
  if◌then◌else◌, is_null, find_where, update_where,
}
use rustdesk_managed_directo.Http.{Tx, raised, unauthorized, modify, pure, ◌>>=◌, ◌>>◌}
use rustdesk_managed_directo.Store.{Account, Session, Setting, Db, is_mobile}
use rustdesk_managed_directo.Store.Env.{Env, AccessClaims}
use rustdesk_managed_directo.Store.Queries.{found, get_int_directory_setting, token_hash}
use rustdesk_managed_directo.Operators.Gates.{Operator}

-- `operator_idle_timeout`, in seconds.
unfoldable pub operator_idle_timeout : Env → List Setting → ℕ
operator_idle_timeout env settings =
    min (max (get_int_directory_setting env "security.ops_idle_minutes" 480 settings) 15) 1440 * 60

-- The WHERE of the query on the session's own columns.
unfoldable pub is_open_session : Env → ℕ → ℕ → AccessClaims → String → Session → Bool
is_open_session env now idle claims token s =
    s.id == claims.sid
    && s.account_id == claims.sub
    && str_eq s.access_token_hash (token_hash env token)
    && is_null s.revoked_at
    && ltb now s.expires_at
    && not (is_null s.mfa_verified_at)
    && (is_mobile s.scope
        || ltb now ((elim s.last_seen_at [ none ↦ s.created_at | some t ↦ t ]) + idle))

-- JOIN operator_accounts oa ON oa.id = os.account_id … AND oa.is_active
unfoldable pub active_account : List Account → ℕ → Option Account
active_account accounts id = find_where (λ a. a.id == id && a.is_active) accounts

abbrev pub operator_of : Session → Account → Operator
operator_of s a = record {
  session_id = s.id;
  account_id = s.account_id;
  username = a.username;
  role = a.role;
  must_change_password = a.must_change_password;
  scope = s.scope;
}

-- The row of the query, if there is one.
unfoldable pub joined : List Account → Option Session → Option Operator
joined accounts none = none
joined accounts (some s) = elim (active_account accounts s.account_id) [
  | none ↦ none
  | some a ↦ some (operator_of s a)
]

unfoldable pub operator_row : Env → ℕ → AccessClaims → String → Db → Option Operator
unfolding joined
operator_row env now claims token db = joined db.accounts (
    find_where (is_open_session env now (operator_idle_timeout env db.settings) claims token)
      db.sessions)

-- UPDATE operator_sessions SET last_seen_at = … WHERE id = …
unfoldable pub touch_session : ℕ → ℕ → List Session → List Session
touch_session id now sessions =
    update_where (λ s. s.id == id) (λ s. record s { last_seen_at = some now }) sessions

-- The claims of a token that can be read and is an access token.
unfoldable pub access_claims : Env → ℕ → Option String → Option AccessClaims
access_claims env now none = none
access_claims env now (some token) = elim (env.decode_access token now) [
  | none ↦ none
  | some claims ↦ if str_eq claims.kind "access" then some claims else none
]

unfoldable pub operator_with : Env → ℕ → String → Option AccessClaims → Tx Db Operator
operator_with env now token none db = raised unauthorized
operator_with env now token (some claims) db =
    (do
      operator ← (λ s. found (operator_row env now claims token s) unauthorized s)
      modify (λ s. record s { sessions = touch_session operator.session_id now s.sessions })
      pure operator)
      db

-- `require_operator`; no bearer token is `none`.
unfoldable pub require_operator : Env → ℕ → Option String → Tx Db Operator
unfolding operator_with
require_operator env now none db = raised unauthorized
require_operator env now (some token) db =
    operator_with env now token (access_claims env now (some token)) db
