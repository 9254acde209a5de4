-- ===== src/Lib.antt =====
-- The managed device directory of directory-api/app: the service that enrolls RustDesk clients, lets
-- operators approve, deny, block and revoke them, hands out signed device credentials, and lets a
-- denied or blocked client come back under an Owner's authorization.
--
-- Parts, and the code each is about (paths from the repository's root):
--   Common      Boolean tests and tables as lists: SELECT and UPDATE with WHERE.
--   Http        HTTPException, and transactions: code that reads and writes the tables and raises.
--               Http/Keeps has Hoare triples for them.
--   Store       the tables of directory-api/migrations as records, with the triggers on statuses and
--               credentials (Triggers), the statements that main.py's handlers share (Queries), the
--               functions taken from outside (Env), and invariants of the tables (Keyed, Backed,
--               Sound, Names, Moves). Store/Phases says what a proof about every handler supplies.
--   Operators   _perform_login of main.py (SignIn), refresh and logout (Refresh), require_operator
--               (Sessions), the gates on the row it returns (Gates), what an Owner does to other
--               accounts (Accounts, Deletion), invitations (Invitations), role changes and the
--               triggers that carry them out (Changes, Completion), the links of
--               security_extension.py that reset access (Resets), and all of these in any order
--               (Steps). Staffed is an invariant of the tables, with a module for each group of
--               handlers.
--   Lifecycle   approve_device and change_device_status of main.py with its three routes, and the
--               revocation of edge certificates of edge_certs.py.
--   Enrollment  enroll_device of main.py with its reading of the payload (Inputs), its events and
--               secrets (Attempts), its queries for identities and authorizations (Identity) and
--               the return of a known device (Readmit).
--   Recovery    authorize_device_reenrollment of security_extension.py, and
--               request_device_reenrollment, complete_device_reenrollment and enrollment_status of
--               main.py.
--   Devices     validate_device_credential and require_device of main.py, device_relay_lease of
--               security_extension.py.
--   System      the ten requests about a device's standing, and sequences of them. The modules named Walk
--               follow each handler once, for every statement about devices and credentials.
--   Upkeep      device_heartbeat of main.py and the deletion of a device in admin_ui.py, as actions
--               beside System's requests and require_operator's own transaction.
--   Limiter     _SlidingWindowLimiter of security_extension.py.
--   Passports   _on_file_key, passport_mismatch and post_results of ca_link.py.
--   Chat        managed_chat.py: the mailbox tables (Mailbox), the routes (Handlers), the registry of
--               sockets (Connections), and its transactions in any order (Steps).
--   Files       rustdrop.py: its settings (Settings), drops (Drops), the relay of uploads to the
--               storage service (Relay), and its transactions in any order (Steps).
--   Sealed      sealed.py: the checks of an envelope and its replay slot (Envelope), the gate for
--               inspected networks (Gate), and an Owner's decisions on them (Networks).
--   Tests       concrete tables and requests.
--
-- How the code is read. A handler is a function from the tables to its answer and the new tables, or
-- to an error, which rolls back; a handler that commits and then raises answers `refused`. The rows
-- it locks make handlers atomic, so concurrent requests are sequences of them. Ids and serials are
-- numbers, instants are seconds (`t > now - w` is written `now < t + w`), texts, keys and digests are
-- strings. Values that the code draws (uuid4, token_urlsafe, sequences) and the clock are in
-- `Context`. No recursion needs fuel: every loop runs over a list.
--
-- Taken as parameters, in `Env`: Python's strip, PostgreSQL's LOWER and BTRIM, HMAC, SHA-256, base64,
-- crypt of pgcrypto, PyJWT, pyotp, the call of Cloudflare, the parsers of addresses and integers; in
-- `Passports.Codec`: the reader of a passport's body, base64 of a key, and the text of an id; in
-- `Files.Reading` and `Sealed.Outside`: Python's functions on texts and PostgreSQL's on networks; and as
-- arguments: which sockets take a message, what the storage service answers, how a sealed blob opens.
--
-- Not modelled: the JSON details of log rows but for their reason, columns that no rule reads (user
-- agents, versions, display names), unique indexes other than the primary key of managed_devices,
-- notices by mail and push, which run after the commit, lists of operators and changes of their
-- email addresses, the bootstrap of the first Owner, limits on the lengths of fields, logs and web
-- pages, the lists of admin_ui.py and the dashboard's idle cookie, the presence events of a heartbeat.
-- A conversation whose summary is missing after the commit, which no tables allow. Of sealed.py the
-- classification of networks, alerts and the inner request; the server and
-- its database have one clock. Of rustdrop.py the bytes themselves, HEAD requests and the check of
-- the storage's health.
pub mod Common
pub mod Http
pub mod Store
pub mod Operators
pub mod Lifecycle
pub mod Enrollment
pub mod Recovery
pub mod Devices
pub mod System
pub mod Limiter
pub mod Passports
pub mod Chat
pub mod Files
pub mod Sealed
pub mod Tests
pub mod Upkeep
