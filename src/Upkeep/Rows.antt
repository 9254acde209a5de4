-- ===== src/Upkeep/Rows.antt =====
-- The device rows that an action leaves, where it is none of System's requests.
use rustdesk_managed_directo.Common.{
  ℕ, String, ◌≡◌, refl, ◌∙◌, true, false, not, ◌||◌, Option, none, some, List, [], ◌∷◌, ◌==◌, arith,
  inl, inr, if◌then◌else◌, Bool-cases, All, select, find_where, update_where,
}
use rustdesk_managed_directo.Http.{Outcome, done, raised, Reply, refused, Tx, commit}
use rustdesk_managed_directo.Http.Keeps.{
  Ends, Hoare, Hoare-bind, Hoare-modify, Hoare-raise_if, Keeps, Keeps-raise_if, Keeps-bind,
  Keeps-pure, Keeps-modify, commit-keeps,
}
use rustdesk_managed_directo.Store.{Device, Db, is_blocked, is_revoked}
use rustdesk_managed_directo.Store.Env.{Env, AccessClaims}
use rustdesk_managed_directo.Store.Queries.{get_device, write_audit}
use rustdesk_managed_directo.Store.Rules.{Keeps-found, get_device_for_update-Locked}
use rustdesk_managed_directo.Store.View.{KeepsId}
use rustdesk_managed_directo.Store.Keyed.{Keyed, FindsItself}
use rustdesk_managed_directo.Operators.Gates.{Operator}
use rustdesk_managed_directo.Operators.Sessions.{require_operator, operator_with, access_claims}
use rustdesk_managed_directo.Lifecycle.{Context}
use rustdesk_managed_directo.Devices.Walk.{Keeps-require_device}
use rustdesk_managed_directo.Upkeep.{
  Heartbeat, or_older, renames, seen, device_heartbeat, delete_device_row,
  require_admin_device_manager, delete_device, sign, heartbeat, delete, act,
}

abbrev pub without : ℕ → List Device → List Device
without j devices = select (λ d. not (d.id == j)) devices

pub get_device-without :
    (j k : ℕ) (devices : List Device)
    → get_device (without j devices) k ≡ (if j == k then none else get_device devices k)
unfolding get_device find_where select
get_device-without j k [] = ground arith
get_device-without j k (d ∷ devices) = ground (arith, get_device-without j k devices)

All-without :
    {P Q : Device → Type 0} (j : ℕ) (devices : List Device)
    → ((d : Device) → P d → (d.id == j) ≡ false → Q d)
    → All P devices
    → All Q (without j devices)
unfolding select
All-without j [] f a = tt
All-without {P} {Q} j (d ∷ devices) f a = elim (Bool-cases (d.id == j)) [
  | inl e ↦ rw e (All-without {P = P} {Q = Q} j devices f a.1)
  | inr e ↦ rw e (f d a.0 e, All-without {P = P} {Q = Q} j devices f a.1)
]

pub Keyed-without : (j : ℕ) (devices : List Device) → Keyed devices → Keyed (without j devices)
Keyed-without j devices keyed =
    All-without {P = FindsItself devices} {Q = FindsItself (without j devices)} j devices
      (λ d h e. get_device-without j d.id devices ∙ ground (arith, h, e)) keyed

module _ (env : Env) (ctx : Context) (payload : Heartbeat) (name : Option String) where
  pub seen-id : KeepsId (seen env ctx payload name)
  unfolding seen
  seen-id e = refl

  pub seen-status : (e : Device) → (seen env ctx payload name e).status ≡ e.status
  unfolding seen
  seen-status e = refl

  pub seen-friendly_name :
      (e : Device) → (seen env ctx payload name e).friendly_name ≡ or_older name e.friendly_name
  unfolding seen
  seen-friendly_name e = refl

module _ {A : Type 0} {P Q : Db → Type 0} where
  commit-Hoare :
      (m : Tx Db (Reply A))
      → Hoare P m (λ _ t. Q t)
      → ((s : Db) → P s → Q s)
      → (s : Db) → P s
      → Q (commit m s).1
  unfolding commit
  commit-Hoare m k weaken s p = go (m s) (k.at s p)
    where
      go :
          (o : Outcome Db (Reply A))
          → Ends (λ _ t. Q t) o
          → Q (
              let r : Reply A × Db = elim o [
                | done reply t ↦ (reply, t)
                | raised e ↦ (refused e, s)
              ] in
              r.1)
      go (done r t) h = h
      go (raised e) h = weaken s p

operator_with-Keeps :
    (P : List Device → Type 0) (env : Env) (now : ℕ) (token : String) (c : Option AccessClaims)
    → Keeps (λ s. P s.devices) (operator_with env now token c)
unfolding operator_with
operator_with-Keeps P env now token none = record { at = λ s h. tt }
operator_with-Keeps P env now token (some claims) =
    Keeps-bind _ _ (Keeps-found (λ s. P s.devices) _ _)
      λ o. Keeps-bind _ _ (Keeps-modify _ λ s h. h) λ _. Keeps-pure _

require_operator-Keeps :
    (P : List Device → Type 0) (env : Env) (now : ℕ) (token : Option String)
    → Keeps (λ s. P s.devices) (require_operator env now token)
unfolding require_operator
require_operator-Keeps P env now none = record { at = λ s h. tt }
require_operator-Keeps P env now (some token) =
    operator_with-Keeps P env now token (access_claims env now (some token))

module _ (P Q : List Device → Type 0) (weaken : (l : List Device) → P l → Q l) (env : Env)
    (ctx : Context) where
  -- The check of an operator's token writes no device.
  pub sign-walk :
      (token : Option String) (s : Db) → P s.devices → Q (act env ctx (sign token) s).devices
  unfolding act
  sign-walk token s h = weaken _ (
      commit-keeps {P = λ t. P t.devices} _
        (Keeps-bind _ _ (require_operator-Keeps P env ctx.now token) λ o. Keeps-pure _) s h)

  -- A heartbeat makes one UPDATE of the row with the device's id.
  pub heartbeat-walk :
      (credential : Option String) (payload : Heartbeat) (s : Db)
      → ((d : Device) (l : List Device)
          → P l
          → Q (
              update_where
                (λ e. e.id == d.id)
                (seen env ctx payload (renames env d payload.friendly_name l))
                l))
      → P s.devices
      → Q (act env ctx (heartbeat credential payload) s).devices
  unfolding act device_heartbeat
  heartbeat-walk credential payload s k h =
      commit-Hoare {P = λ t. P t.devices} {Q = λ t. Q t.devices} _
        (Hoare-bind _ _ (Keeps-require_device (λ t. P t.devices) env ctx.now credential) λ found.
          Hoare-bind _ _ (Hoare-modify {Q = λ _ t. Q t.devices} _ λ t p. k found.0 t.devices p)
            λ _. Keeps-pure {P = λ t. Q t.devices} _)
        (λ t p. weaken t.devices p) s h

  -- A deletion takes the row away, if it was blocked or revoked.
  pub delete-walk :
      (o : Operator) (id : ℕ) (reason : String) (s : Db)
      → ((d : Device) (l : List Device)
          → P l
          → get_device l id ≡ some d
          → (is_blocked d.status || is_revoked d.status) ≡ true
          → Q (without id l))
      → P s.devices
      → Q (act env ctx (delete o id reason) s).devices
  unfolding act delete_device delete_device_row require_admin_device_manager write_audit
  delete-walk o id reason s k h =
      commit-Hoare {P = λ t. P t.devices} {Q = λ t. Q t.devices} _
        (Hoare-bind _ _
          (Keeps-bind {P = λ t. P t.devices} _ _ (Keeps-raise_if _ _) λ _. Keeps-raise_if _ _)
          λ _. Hoare-bind _ _ (Keeps-raise_if _ _) λ _. Hoare-bind _ _ (Keeps-raise_if _ _) λ _.
            Hoare-bind _ _ (get_device_for_update-Locked id) λ d.
              Hoare-bind _ _ (Hoare-raise_if _ _) λ _.
                Hoare-bind
                  {Q = λ _ t.
                    (P t.devices × (get_device t.devices id ≡ some d))
                    × (not (is_blocked d.status || is_revoked d.status) ≡ false)}
                  _ _ (record { at = λ t p. p })
                  λ _.
                    Hoare-bind _ _
                      (Hoare-modify {Q = λ _ t. Q t.devices} _
                        λ t p. k d t.devices p.0.0 p.0.1 (ground (arith, p.1)))
                      λ _. Keeps-pure {P = λ t. Q t.devices} _)
        (λ t p. weaken t.devices p) s h
