-- ===== src/Enrollment/Walk.antt =====
-- Enrolling and coming back, followed once for every proof about them.
use rustdesk_managed_directo.Common.{
  ℕ, String, ◌≡◌, refl, Option, none, some, List, [], ◌∷◌, coalesce, find_where, All-find_where,
  All,
}
use rustdesk_managed_directo.Http.{gets, ◌>>=◌}
use rustdesk_managed_directo.Http.Keeps.{
  Hoare, Keeps, Hoare-bind, Hoare-if, Hoare-gets, Hoare-pre, Keeps-raise_if, Keeps-gets, Keeps-pure,
  Keeps-raise, Keeps-modify, Keeps-if,
}
use rustdesk_managed_directo.Store.{
  Status, pending, approved, denied, blocked, revoked, Device, Authorization, Secret,
  EnrollmentEvent, EnrollmentResult, Db,
}
use rustdesk_managed_directo.Store.Env.{Env}
use rustdesk_managed_directo.Store.Triggers.{revoke_credentials}
use rustdesk_managed_directo.Store.Queries.{get_device}
use rustdesk_managed_directo.Store.Keyed.{FindsItself, All-select}
use rustdesk_managed_directo.Store.Moves.{Move, stay, readmits_denied, readmits_blocked}
use rustdesk_managed_directo.Store.Phases.{Ready, Phases}
use rustdesk_managed_directo.Store.Rules.{Locked, Hoare-ensure}
use rustdesk_managed_directo.Lifecycle.{Context}
use rustdesk_managed_directo.Lifecycle.Walk.{audit-walk, event-walk}
use rustdesk_managed_directo.Enrollment.Identity.{
  Applicant, is_exact, is_pending_identity, find_exact,
}
use rustdesk_managed_directo.Enrollment.Readmit.{readmit, readmitted}
use rustdesk_managed_directo.Enrollment.{
  EnrollmentRequest, new_device, enroll_new, enroll_again, enroll_authorized, enroll_known,
  enroll_identified, enroll_identity, enroll_with, enroll_secret, enroll_applicant, enroll_device,
}
use rustdesk_managed_directo.Enrollment.Attempts.{log_and_refuse, rejection}
use rustdesk_managed_directo.Enrollment.Inputs.{
  normalize_contact_email, decode_device_public_key, decoded,
}

coalesce_found :
    {A : Type 0} (P : A → Type 0) (o p : Option A)
    → ((x : A) → o ≡ some x → P x)
    → ((x : A) → p ≡ some x → P x)
    → (d : A) → coalesce o p ≡ some d
    → P d
coalesce_found P none p ho hp d h = hp d h
coalesce_found P (some x) p ho hp d h = ho d h

-- The device that the payload identifies is a row of the table.
find_exact-FindsItself :
    (a : Applicant) (devices l : List Device) (d : Device)
    → All (FindsItself devices) l
    → find_exact a l ≡ some d
    → get_device devices d.id ≡ some d
unfolding find_exact
find_exact-FindsItself a devices l d keyed =
    coalesce_found (FindsItself devices) (find_where (is_exact a) l)
      (find_where (is_pending_identity a) l)
      (λ x. All-find_where (FindsItself devices) (is_exact a) l keyed)
      (λ x. All-find_where (FindsItself devices) (is_pending_identity a) l keyed) d

-- Reading the payload touches no table.
pub Keeps-normalize :
    {P : Db → Type 0} (env : Env) (email : Option String)
    → Keeps P (normalize_contact_email env email)
unfolding normalize_contact_email
Keeps-normalize env none = Keeps-pure _
Keeps-normalize {P} env (some value) = Keeps-if _ _ _ (Keeps-pure _) (
    Hoare-bind _ _ (Keeps-raise_if {P = P} _ _) λ _.
      Hoare-bind _ _ (Keeps-raise_if {P = P} _ _)
        λ _. Hoare-bind _ _ (Keeps-raise_if {P = P} _ _) λ _. Keeps-pure _)

pub Keeps-decode :
    {P : Db → Type 0} (env : Env) (key : String) → Keeps P (decode_device_public_key env key)
unfolding decode_device_public_key
Keeps-decode {P} env key = go (env.b64decode key)
  where
    go : (o : Option String) → Keeps P (decoded env o)
    go none = Keeps-raise _
    go (some bytes) = Keeps-if _ _ _ (Keeps-raise _) (Keeps-pure _)

module _ {env : Env} {Pre Post : Db → Type 0} (ph : Phases env Pre Post) where
  pub readmit-walk :
      (ctx : Context) (a : Applicant) (d : Device) (auth : Authorization) (prefix : String)
      → Move (some d.status) (some pending)
      → Hoare
          (Ready env Pre d (coalesce a.friendly_name d.friendly_name))
          (readmit env ctx a d auth prefix)
          (λ _ t. Post t)
  unfolding readmit revoke_credentials readmitted
  readmit-walk ctx a d auth prefix m =
      Hoare-bind _ _
        (Keeps-modify {P = Ready env Pre d (coalesce a.friendly_name d.friendly_name)} _ λ s h.
          (ph.frame_pre _ _ refl refl (ph.revoke _ _ (λ c. (ctx.now, refl)) s h.0), h.1, h.2))
        λ _.
          Hoare-bind _ _
            (ph.set_named d ctx.now pending _ auth.requested_by (readmitted env ctx a) _ (λ e. refl)
              refl m)
            λ _.
              Hoare-bind _ _ (Keeps-modify _ λ s h. ph.frame_post _ _ refl refl h) λ _. Keeps-pure _

  log_and_refuse-walk :
      (e : EnrollmentEvent) (code : ℕ) (detail : String)
      → Hoare Pre (log_and_refuse e code detail) (λ _ t. Post t)
  unfolding log_and_refuse
  log_and_refuse-walk e code detail =
      Hoare-pre _ ph.weaken (Hoare-bind _ _ (event-walk ph e) λ _. Keeps-pure _)

  enroll_new-walk :
      (ctx : Context) (a : Applicant) (secret : Secret)
      → Hoare Pre (enroll_new env ctx a secret) (λ _ t. Post t)
  unfolding enroll_new
  enroll_new-walk ctx a secret = Hoare-bind _ _ (Hoare-ensure {P = Pre} env _ _) λ _.
      Hoare-bind _ _ (ph.insert (new_device env ctx a) refl) λ _.
        Hoare-bind _ _ (Keeps-modify _ λ s h. ph.frame_post _ _ refl refl h) λ _.
          Hoare-bind _ _ (event-walk ph _) λ _. Hoare-bind _ _ (audit-walk ph _) λ _. Keeps-pure _

  enroll_again-walk :
      (ctx : Context) (a : Applicant) (secret : Secret) (d : Device) (auth : Authorization)
      → Move (some d.status) (some pending)
      → Hoare (Locked Pre d.id d) (enroll_again env ctx a secret d auth) (λ _ t. Post t)
  unfolding enroll_again
  enroll_again-walk ctx a secret d auth m =
      Hoare-bind _ _ (Hoare-ensure {P = Locked Pre d.id d} env _ _) λ _.
        Hoare-bind _ _ (Hoare-pre _ (λ s h. (h.0.0, h.0.1, h.1)) (readmit-walk ctx a d auth _ m))
          λ _. Hoare-bind _ _ (Keeps-modify _ λ s h. ph.frame_post _ _ refl refl h) λ _.
            Hoare-bind _ _ (event-walk ph _) λ _. Hoare-bind _ _ (audit-walk ph _) λ _. Keeps-pure _

  refuse-walk :
      (d : Device) (e : EnrollmentEvent) (code : ℕ) (detail : String)
      → Hoare (Locked Pre d.id d) (log_and_refuse e code detail) (λ _ t. Post t)
  refuse-walk d e code detail = Hoare-pre _ (λ s h. h.0) (log_and_refuse-walk e code detail)

  enroll_authorized-walk :
      (ctx : Context) (a : Applicant) (secret : Secret) (d : Device) (auth : Option Authorization)
      → Move (some d.status) (some pending)
      → Hoare (Locked Pre d.id d) (enroll_authorized env ctx a secret d auth) (λ _ t. Post t)
  unfolding enroll_authorized
  enroll_authorized-walk ctx a secret d (some auth) m = enroll_again-walk ctx a secret d auth m
  enroll_authorized-walk ctx a secret d none m =
      Hoare-if _ _ _ (refuse-walk d _ _ _) (refuse-walk d _ _ _)

  enroll_recovering-walk :
      (ctx : Context) (a : Applicant) (secret : Secret) (d : Device) (f : Db → Option Authorization)
      → Move (some d.status) (some pending)
      → Hoare
          (Locked Pre d.id d)
          (gets f >>= λ auth. enroll_authorized env ctx a secret d auth)
          (λ _ t. Post t)
  enroll_recovering-walk ctx a secret d f m =
      Hoare-bind _ _ (Keeps-gets {P = Locked Pre d.id d} _)
        λ auth. enroll_authorized-walk ctx a secret d auth m

  enroll_known-walk :
      (ctx : Context) (a : Applicant) (secret : Secret) (d : Device) (s : Status)
      (token : Option String)
      → d.status ≡ s
      → Hoare (Locked Pre d.id d) (enroll_known env ctx a secret d s token) (λ _ t. Post t)
  unfolding enroll_known
  enroll_known-walk ctx a secret d approved token e = refuse-walk d _ _ _
  enroll_known-walk ctx a secret d revoked token e = refuse-walk d _ _ _
  enroll_known-walk ctx a secret d pending token e =
      enroll_recovering-walk ctx a secret d _ (rw e (stay (some pending)))
  enroll_known-walk ctx a secret d denied token e =
      enroll_recovering-walk ctx a secret d _ (rw e readmits_denied)
  enroll_known-walk ctx a secret d blocked token e =
      enroll_recovering-walk ctx a secret d _ (rw e readmits_blocked)

  enroll_identified-walk :
      (ctx : Context) (a : Applicant) (secret : Secret) (token : Option String) (o : Option Device)
      (l : List Device)
      → Hoare
          (λ s. Pre s × ((d : Device) → o ≡ some d → get_device s.devices d.id ≡ some d))
          (enroll_identified env ctx a secret token o l)
          (λ _ t. Post t)
  unfolding enroll_identified
  enroll_identified-walk ctx a secret token o [] =
      Hoare-pre _ (λ s h. h.0) (enroll_new-walk ctx a secret)
  enroll_identified-walk ctx a secret token none (e ∷ l) =
      Hoare-pre _ (λ s h. h.0) (log_and_refuse-walk _ _ _)
  enroll_identified-walk ctx a secret token (some d) (e ∷ l) =
      Hoare-pre _ (λ s h. (h.0, h.1 d refl))
        (Hoare-if _ _ _ (refuse-walk d _ _ _)
          (enroll_known-walk ctx a secret d d.status token refl))

  enroll_identity-walk :
      (ctx : Context) (a : Applicant) (secret : Secret) (token : Option String)
      → Hoare Pre (enroll_identity env ctx a secret token) (λ _ t. Post t)
  unfolding enroll_identity
  enroll_identity-walk ctx a secret token = Hoare-bind _ _ (Hoare-gets {P = Pre} _) λ l.
      Hoare-pre _
        (λ s h. (
          h.0,
          λ d found.
              find_exact-FindsItself a s.devices l d
                (rw h.1 (All-select (FindsItself s.devices) _ s.devices (ph.keyed s h.0))) found,
        ))
        (enroll_identified-walk ctx a secret token (find_exact a l) l)

  enroll_with-walk :
      (ctx : Context) (a : Applicant) (token : Option String) (secret : Secret)
      (r : Option (EnrollmentResult × String))
      → Hoare Pre (enroll_with env ctx a token secret r) (λ _ t. Post t)
  unfolding enroll_with
  enroll_with-walk ctx a token secret none = enroll_identity-walk ctx a secret token
  enroll_with-walk ctx a token secret (some (result, detail)) = log_and_refuse-walk _ _ _

  enroll_secret-walk :
      (ctx : Context) (a : Applicant) (token : Option String) (secret : Option Secret)
      → Hoare Pre (enroll_secret env ctx a token secret) (λ _ t. Post t)
  unfolding enroll_secret
  enroll_secret-walk ctx a token none = log_and_refuse-walk _ _ _
  enroll_secret-walk ctx a token (some secret) =
      enroll_with-walk ctx a token secret (rejection secret ctx.now)

  pub enroll_device-walk :
      (ctx : Context) (r : EnrollmentRequest) → Hoare Pre (enroll_device env ctx r) (λ _ t. Post t)
  unfolding enroll_device enroll_applicant
  enroll_device-walk ctx r = Hoare-bind _ _ (Keeps-normalize {P = Pre} env r.contact_email) λ email.
      Hoare-bind _ _ (Keeps-raise_if {P = Pre} _ _) λ _.
        Hoare-bind _ _ (Keeps-decode {P = Pre} env r.device_public_key) λ key.
          Hoare-bind _ _ (Keeps-gets {P = Pre} _) λ failures.
            Hoare-bind _ _ (Keeps-gets {P = Pre} _) λ secret.
              Hoare-if _ _ _ (log_and_refuse-walk _ _ _)
                (enroll_secret-walk ctx _ r.reenrollment_poll_token secret)
