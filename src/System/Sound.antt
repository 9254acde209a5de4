-- ===== src/System/Sound.antt =====
-- After any requests: which device rows and credentials the tables can hold together.
use rustdesk_managed_directo.Common.{ℕ, ◌≡◌, Option, none, some, List, [], ◌∷◌, refl}
use rustdesk_managed_directo.Http.Keeps.{
  Keeps, Hoare-bind, Hoare-modify, Hoare-pre, Keeps-gets, Keeps-pure,
}
use rustdesk_managed_directo.Store.{Credential, Db}
use rustdesk_managed_directo.Store.Env.{Env}
use rustdesk_managed_directo.Store.Sound.{
  Sound, set_status-Sound, update_device-Sound, revoke-Sound, insert_credential-Sound,
  insert_device-Sound,
}
use rustdesk_managed_directo.Store.Phases.{Phases}
use rustdesk_managed_directo.Lifecycle.{Context, credential_of, issue_credential}
use rustdesk_managed_directo.System.{Request, run}
use rustdesk_managed_directo.System.Walk.{handle-walk}

issue_credential-Sound :
    (o : Option Credential) (id serial actor now : ℕ)
    → Keeps Sound (issue_credential o id serial actor now)
unfolding issue_credential
issue_credential-Sound none id serial actor now =
    Hoare-bind _ _ (insert_credential-Sound _) λ _. Keeps-pure _
issue_credential-Sound (some c) id serial actor now = Keeps-pure c

credential_of-Sound : (id serial actor now : ℕ) → Keeps Sound (credential_of id serial actor now)
unfolding credential_of
credential_of-Sound id serial actor now =
    Hoare-bind _ _ (Keeps-gets _) λ o. issue_credential-Sound o id serial actor now

Sound-frame : (s t : Db) → t.devices ≡ s.devices → t.credentials ≡ s.credentials → Sound s → Sound t
Sound-frame s t d c h = rw (d, c) h

pub Sound-Phases : (env : Env) → Phases env Sound Sound
Sound-Phases env = record {
  keyed = λ s h. h.0;
  weaken = λ s h. h;
  frame_pre = Sound-frame;
  frame_post = Sound-frame;
  revoke = revoke-Sound;
  set_plain =
      λ d now to reason actor m r. set_status-Sound d.id d now to reason actor (λ e. e) (λ e. refl);
  set_named = λ d now to reason actor f name keeps same m.
      Hoare-pre _ (λ s h. (h.0, h.1)) (set_status-Sound d.id d now to reason actor f keeps);
  rename = λ d name. Hoare-modify _ λ s h. update_device-Sound d.id _ (λ e. refl) (λ e. refl) s h.0;
  touch = λ j f t s h. update_device-Sound j f t.id t.status s h;
  insert = λ d same. Hoare-pre _ (λ s h. h.0) (insert_device-Sound d);
  issue = credential_of-Sound;
}

-- From tables in which every device is the one that its id finds and every credential without
-- revoked_at belongs to an approved device, any sequence of requests, with any outcomes, leads to
-- tables of this kind.
pub run-Sound :
    (env : Env) (requests : List (Context × Request)) (db : Db)
    → Sound db
    → Sound (run env requests db)
unfolding run
run-Sound env [] db h = h
run-Sound env ((ctx, r) ∷ rest) db h =
    run-Sound env rest _ (handle-walk (Sound-Phases env) ctx r db h)
