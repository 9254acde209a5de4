-- ===== src/Devices/Walk.antt =====
-- A relay lease, followed once for every proof about it.
use rustdesk_managed_directo.Common.{refl, ℕ, String, Option, none, some}
use rustdesk_managed_directo.Http.Keeps.{
  Hoare, Keeps, Hoare-bind, Keeps-raise, Keeps-pure, Hoare-modify, Keeps-if,
}
use rustdesk_managed_directo.Store.{Device, Credential, Db}
use rustdesk_managed_directo.Store.Env.{Env}
use rustdesk_managed_directo.Store.Rules.{Keeps-found}
use rustdesk_managed_directo.Store.Phases.{Phases}
use rustdesk_managed_directo.Lifecycle.{Context}
use rustdesk_managed_directo.Devices.{require_device, safe_client_ip, device_relay_lease}

-- What a lease leaves alone: the tables of devices and credentials.
Keeps-safe_client_ip :
    (P : Db → Type 0) (env : Env) (ip : Option String) → Keeps P (safe_client_ip env ip)
unfolding safe_client_ip
Keeps-safe_client_ip P env none = Keeps-raise _
Keeps-safe_client_ip P env (some raw) = Keeps-if _ _ _ (Keeps-raise _) (Keeps-found P _ _)

pub Keeps-require_device :
    (P : Db → Type 0) (env : Env) (now : ℕ) (token : Option String)
    → Keeps P (require_device env now token)
unfolding require_device
Keeps-require_device P env now none = Keeps-raise _
Keeps-require_device P env now (some credential) = Keeps-found P _ _

module _ {env : Env} {Pre Post : Db → Type 0} (ph : Phases env Pre Post) where
  pub lease-walk :
      (ctx : Context) (dc : Device × Credential)
      → Hoare Pre (device_relay_lease env ctx dc) (λ _ t. Post t)
  unfolding device_relay_lease
  lease-walk ctx (d, c) = Hoare-bind _ _ (Keeps-safe_client_ip Pre env ctx.source_ip) λ ip.
      Hoare-bind _ _ (Hoare-modify _ λ s h. ph.frame_post s _ refl refl (ph.weaken s h))
        λ _. Keeps-pure {P = Post} _
