-- ===== src/Http.antt =====
-- What a handler answers: FastAPI's HTTPException, and the transactions that handlers run in.
-- `Tx A` is the code between `open_database()` and the commit or the rollback: it reads and writes
-- the tables and raises. A handler that commits and then raises returns a `refused` reply.
pub mod Keeps
use rustdesk_managed_directo.Common.{ℕ, String, Bool, true, false}

pub record HttpError : Type 0 where
  pub status_code : ℕ
  pub detail : String

abbrev pub http : ℕ → String → HttpError
http code text = record { status_code = code; detail = text }

-- main.py `unauthorized`.
abbrev pub unauthorized : HttpError
unauthorized = http 401 "Invalid or expired authentication"

-- What becomes of an exception that no handler catches, such as one that a trigger raises.
abbrev pub internal_error : String → HttpError
internal_error text = http 500 text

pub data Reply (A : Type 0) : Type 0 where
  accepted : A → Reply A
  refused : HttpError → Reply A

pub data Outcome (S A : Type 0) : Type 0 where
  done : A → S → Outcome S A
  raised : HttpError → Outcome S A

abbrev pub Tx : Type 0 → Type 0 → Type 0
Tx S A = S → Outcome S A

pub pure : {S A : Type 0} → A → Tx S A
pure a s = done a s

pub raise : {S A : Type 0} → HttpError → Tx S A
raise e s = raised e

pub gets : {S A : Type 0} → (S → A) → Tx S A
gets f s = done (f s) s

pub modify : {S : Type 0} → (S → S) → Tx S (Unit {0})
modify f s = done tt (f s)

abbrev pub continue : {S A B : Type 0} → Outcome S A → (A → Tx S B) → Outcome S B
continue (done a s) f = f a s
continue (raised e) f = raised e

-- `if test: raise error`.
pub raise_if : {S : Type 0} → Bool → HttpError → Tx S (Unit {0})
raise_if true e s = raised e
raise_if false e s = done tt s

infixl 5 ◌>>=◌ ◌>>◌
-- Opening this opens `pure`, `raise`, `gets`, `modify` and `raise_if` too.
unfoldable pub ◌>>=◌ : {S A B : Type 0} → Tx S A → (A → Tx S B) → Tx S B
unfolding pure raise gets modify raise_if
◌>>=◌ m f s = continue (m s) f

abbrev pub ◌>>◌ : {S B : Type 0} → Tx S (Unit {0}) → Tx S B → Tx S B
m >> k = m >>= λ _. k

-- The end of the `with` block: a commit, or a rollback to the tables before the handler.
unfoldable pub commit : {S A : Type 0} → Tx S (Reply A) → S → Reply A × S
commit m s = elim (m s) [ done reply s' ↦ (reply, s') | raised e ↦ (refused e, s) ]
