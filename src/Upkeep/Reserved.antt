-- ===== src/Upkeep/Reserved.antt =====
-- After any actions: no two managed clients reserve the same friendly name.
use rustdesk_managed_directo.Common.{
  ℕ, String, ◌≡◌, refl, sym, ◌∙◌, subst, Bool, true, false, ◌||◌, Option, none, some, List, [], ◌∷◌,
  ◌==◌, arith, inl, inr, str_eq, if◌then◌else◌, Bool-cases, update_where,
}
use rustdesk_managed_directo.Store.{Device, Db}
use rustdesk_managed_directo.Store.Env.{Env}
use rustdesk_managed_directo.Store.Queries.{get_device, name_taken}
use rustdesk_managed_directo.Store.View.{on_device}
use rustdesk_managed_directo.Store.Keyed.{Keyed, Keyed-update}
use rustdesk_managed_directo.Store.Names.{
  claim, claim_of, claim-tells, name_at, name_at-update, name_at-taken, NamesApart,
  NamesApart-change, Names,
}
use rustdesk_managed_directo.Store.Phases.{Touches}
use rustdesk_managed_directo.Lifecycle.{Context}
use rustdesk_managed_directo.System.Names.{name_at-touched, Names-Phases}
use rustdesk_managed_directo.System.Walk.{handle-walk}
use rustdesk_managed_directo.Upkeep.{
  Heartbeat, is_name, renames, seen, Action, request, sign, heartbeat, delete, act, act_all,
}
use rustdesk_managed_directo.Upkeep.Rows.{
  without, get_device-without, Keyed-without, seen-id, seen-status, seen-friendly_name, sign-walk,
  heartbeat-walk, delete-walk,
}

module _ (env : Env) where
  abbrev Reserved : List Device → Type 0
  Reserved l = Keyed l × NamesApart env l

  name_at-without :
      (j k : ℕ) (n : String) (l : List Device)
      → name_at env (without j l) k ≡ some n
      → name_at env l k ≡ some n
  unfolding name_at
  name_at-without j k n l h = go (j == k) (rw (get_device-without j k l) at h)
    where
      go :
          (b : Bool)
          → claim_of env (if b then none else get_device l k) ≡ some n
          → claim_of env (get_device l k) ≡ some n
      go true e = cc e
      go false e = e

  without-Reserved : (j : ℕ) (l : List Device) → Reserved l → Reserved (without j l)
  without-Reserved j l h = (
    Keyed-without j l h.0,
    λ a b n ha hb. h.1 a b n (name_at-without j a n l ha) (name_at-without j b n l hb),
  )

  -- A name that is stripped already is looked up as the name it was stripped from.
  name_taken-strip :
      (raw : String) (exclude : Option ℕ) (l : List Device)
      → env.strip (env.strip raw) ≡ env.strip raw
      → name_taken env (some (env.strip raw)) exclude l ≡ name_taken env (some raw) exclude l
  unfolding name_taken
  name_taken-strip raw exclude l h = rw h refl

  -- A heartbeat that renames has found that no other device reserves the name.
  renames-free :
      (d : Device) (asked : Option String) (l : List Device) (m : String)
      → renames env d asked l ≡ some m
      → (raw : String) × (env.strip raw ≡ m) × (name_taken env (some raw) (some d.id) l ≡ false)
  unfolding renames
  renames-free d none l m h = cc h
  renames-free d (some raw) l m h =
      elim (Bool-cases (
        str_eq (env.strip raw) ""
        || is_name d.friendly_name (env.strip raw)
        || name_taken env (some raw) (some d.id) l)) [
          | inl e ↦ let k : none ≡ some m = (rw e at h) in cc k
          | inr e ↦
              let k : some (env.strip raw) ≡ some m = (rw e at h) in (raw, cc k, ground (arith, e))
        ]

  module _ (ctx : Context) (payload : Heartbeat) (d : Device) (l : List Device) where
    kept-Reserved :
        Reserved l → Reserved (update_where (λ e. e.id == d.id) (seen env ctx payload none) l)
    kept-Reserved h =
        let t : Touches (seen env ctx payload none) = record {
          id = seen-id env ctx payload none;
          status = seen-status env ctx payload none;
          friendly_name = seen-friendly_name env ctx payload none;
        } in
        (
          Keyed-update l d.id _ t.id h.0,
          λ a b n ha hb.
              h.1 a b n (sym (name_at-touched env d.id _ l t a) ∙ ha)
                (sym (name_at-touched env d.id _ l t b) ∙ hb),
        )

    -- What the renamed row reserves, no other row does.
    free_after :
        (m raw n : String) (k : ℕ)
        → env.strip raw ≡ m
        → name_taken env (some raw) (some d.id) l ≡ false
        → (o : Option Device) → claim_of env (on_device (seen env ctx payload (some m)) o) ≡ some n
        → name_at env l k ≡ some n
        → d.id ≡ k
    free_after m raw n k from free none a b = cc a
    free_after m raw n k from free (some e) a b =
        let mine : claim env e.status (some m) ≡ some n =
          (rw
            (seen-status env ctx payload (some m) e, seen-friendly_name env ctx payload (some m) e)
            at a) in
        let clean = (claim-tells env e.status m n mine).1 in
        name_at-taken env l (some m) (some d.id) e.status n k
          (subst (λ s. name_taken env (some s) (some d.id) l ≡ false) from
            (name_taken-strip raw (some d.id) l (rw from clean) ∙ free))
          mine b

    renamed-Reserved :
        (m : String)
        → renames env d payload.friendly_name l ≡ some m
        → Reserved l
        → Reserved (update_where (λ e. e.id == d.id) (seen env ctx payload (some m)) l)
    renamed-Reserved m h r =
        let f = seen env ctx payload (some m) in
        let keeps = seen-id env ctx payload (some m) in
        let t = renames-free d payload.friendly_name l m h in
        (
          Keyed-update l d.id f keeps r.0,
          NamesApart-change env l _ d.id
              (λ k e. name_at-update env l d.id k f keeps ∙ ground (arith, e))
              (λ n k a b.
                free_after m t.0 n k t.1 t.2 (get_device l d.id)
                  (ground arith ∙ sym (name_at-update env l d.id d.id f keeps) ∙ a) b)
              r.1,
        )

    seen-Reserved :
        Reserved l
        → Reserved (
            update_where
              (λ e. e.id == d.id)
              (seen env ctx payload (renames env d payload.friendly_name l))
              l)
    seen-Reserved r = go (renames env d payload.friendly_name l) refl
      where
        go :
            (o : Option String)
            → renames env d payload.friendly_name l ≡ o
            → Reserved (update_where (λ e. e.id == d.id) (seen env ctx payload o) l)
        go none e = kept-Reserved r
        go (some m) e = renamed-Reserved m e r

  act-Names : (ctx : Context) (a : Action) (db : Db) → Names env db → Names env (act env ctx a db)
  unfolding act
  act-Names ctx (request r) db h = handle-walk (Names-Phases env) ctx r db h
  act-Names ctx (sign token) db h = sign-walk Reserved Reserved (λ l r. r) env ctx token db h
  act-Names ctx (heartbeat credential payload) db h =
      heartbeat-walk Reserved Reserved (λ l r. r) env ctx credential payload db
        (λ d l r. seen-Reserved ctx payload d l r) h
  act-Names ctx (delete o id reason) db h =
      delete-walk Reserved Reserved (λ l r. r) env ctx o id reason db
        (λ d l r row out. without-Reserved id l r) h

-- If no two pending, approved or blocked devices have the same friendly name, trimmed and in lower
-- case, and every device row is the one that its id finds, then both hold after any sequence of
-- actions: System's requests, checks of operators' tokens, heartbeats, with which clients rename
-- themselves, and deletions of devices. The names meant are those that are stripped and not empty.
pub act_all-Names :
    (env : Env) (actions : List (Context × Action)) (db : Db)
    → Names env db
    → Names env (act_all env actions db)
unfolding act_all
act_all-Names env [] db h = h
act_all-Names env ((ctx, a) ∷ rest) db h = act_all-Names env rest _ (act-Names env ctx a db h)
