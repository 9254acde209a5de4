-- ===== src/Store/Rules.antt =====
-- Triples for the shared statements: what each keeps, and what a locked row tells.
use rustdesk_managed_directo.Common.{
  Bool, true, false, ℕ, String, ◌≡◌, refl, Option, none, some, List,
}
use rustdesk_managed_directo.Http.{HttpError, raise_if, ◌>>=◌}
use rustdesk_managed_directo.Http.Keeps.{Ends, Hoare, Keeps, Keeps-raise_if}
use rustdesk_managed_directo.Store.{Device, EnrollmentEvent, Audit, Job, JobKind, Db}
use rustdesk_managed_directo.Store.Env.{Env}
use rustdesk_managed_directo.Store.Queries.{
  found, get_device, get_device_for_update, ensure_friendly_name_available, name_taken, write_audit,
  write_enrollment_event, sec8_enqueue,
}

-- A read that finds a row or raises.
pub Keeps-found :
    {S A : Type 0} (P : S → Type 0) (o : S → Option A) (e : HttpError)
    → Keeps P (λ db. found (o db) e db)
Keeps-found {S} {A} P o e = record { at = λ s h. go s h (o s) }
  where
    go : (s : S) → P s → (r : Option A) → Ends (λ _ t. P t) (found r e s)
    go s h none = tt
    go s h (some a) = h

-- `P`, and the row with the id is `d`.
abbrev pub Locked : (Db → Type 0) → ℕ → Device → Db → Type 0
Locked P id d db = P db × (get_device db.devices id ≡ some d)

raise_if-Ends-at :
    (Q : Db → Type 0) (b : Bool) (e : HttpError) (s : Db)
    → (b ≡ false → Q s)
    → Ends (λ _ t. Q t) (raise_if b e s)
unfolding ◌>>=◌
raise_if-Ends-at Q true e s h = tt
raise_if-Ends-at Q false e s h = h refl

module _ {P : Db → Type 0} where
  pub get_device_for_update-Locked : (id : ℕ) → Hoare P (get_device_for_update id) (Locked P id)
  unfolding get_device_for_update
  get_device_for_update-Locked id = record { at = λ s h. go s h (get_device s.devices id) refl }
    where
      go :
          (s : Db)
          → P s
          → (o : Option Device) → get_device s.devices id ≡ o
          → Ends
              (Locked P id)
              (found o (record { status_code = 404; detail = "Managed device not found" }) s)
      go s h none e = tt
      go s h (some d) e = (h, e)

  -- The check tells that no other device reserves the name.
  pub Hoare-ensure :
      (env : Env) (name : Option String) (exclude : Option ℕ)
      → Hoare P
          (ensure_friendly_name_available env name exclude)
          (λ _ s. P s × (name_taken env name exclude s.devices ≡ false))
  unfolding ensure_friendly_name_available
  Hoare-ensure env name exclude = record {
    at = λ s h.
        raise_if-Ends-at (λ t. P t × (name_taken env name exclude t.devices ≡ false)) _ _ s
          (λ e. (h, e));
  }

  pub Keeps-ensure :
      (env : Env) (name : Option String) (exclude : Option ℕ)
      → Keeps P (ensure_friendly_name_available env name exclude)
  unfolding ensure_friendly_name_available
  Keeps-ensure env name exclude = record {
    at = λ s h. (Keeps-raise_if {P = P} (name_taken env name exclude s.devices) _).at s h;
  }

-- An invariant that does not look at the logs and the job queue.
pub record IgnoresLogs (P : Db → Type 0) : Type 0 where
  pub audits : (db : Db) (l : List Audit) → P db → P (record db { audit = l })
  pub events : (db : Db) (l : List EnrollmentEvent) → P db → P (record db { enrollment_events = l })
  pub queued : (db : Db) (l : List Job) → P db → P (record db { jobs = l })

module _ {P : Db → Type 0} (l : IgnoresLogs P) where
  pub Keeps-write_audit : (a : Audit) → Keeps P (write_audit a)
  unfolding write_audit
  Keeps-write_audit a = record { at = λ s h. l.audits s _ h }

  pub Keeps-write_enrollment_event : (e : EnrollmentEvent) → Keeps P (write_enrollment_event e)
  unfolding write_enrollment_event
  Keeps-write_enrollment_event e = record { at = λ s h. l.events s _ h }

  pub Keeps-sec8_enqueue :
      (job : ℕ) (kind : JobKind) (id : ℕ) (idk prot : Option String)
      → Keeps P (sec8_enqueue job kind id idk prot)
  unfolding sec8_enqueue
  Keeps-sec8_enqueue job kind id idk prot = record { at = λ s h. l.queued s _ h }
