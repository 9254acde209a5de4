-- ===== src/Operators/Staffed/Updates.antt =====
-- Which changes of the tables keep them staffed.
use rustdesk_managed_directo.Common.{
  ℕ, ◌≡◌, ◌⊎◌, Bool, true, false, not, ◌||◌, List, ◌∷◌, ◌==◌, arith, exists_where, update_where,
  All, All-mono, All-intro, All-update_where, Bool-cases, inl, inr,
}
use rustdesk_managed_directo.Common.Picks.{All-zip}
use rustdesk_managed_directo.Common.Distinct.{
  Distinct-update_where, exists_where-none, exists_where-survives,
}
use rustdesk_managed_directo.Store.{Account, RoleChange, Db, is_owner, is_completed}
use rustdesk_managed_directo.Operators.Accounts.{is_other_owner}
use rustdesk_managed_directo.Operators.Staffed.{
  serves_as_owner, promotes, is_entitled, account_id, change_id, Entitled, Staffed, Only, Held,
}

abbrev Sole : Account → List Account → List RoleChange → Account → Type 0
Sole a start changes b = (is_entitled start changes b ≡ true) × ((b.id == a.id) ≡ true → b ≡ a)

module _ (start : List Account) where
  -- An UPDATE that writes a row over the one with its id. The new row is entitled to its role if the
  -- old one was, and no active Owner goes, or another is left.
  pub Staffed-row :
      (a a' : Account) (db : Db)
      → a'.id ≡ a.id
      → (is_entitled start db.role_changes a ≡ true → is_entitled start db.role_changes a' ≡ true)
      → (not (serves_as_owner a)
          || serves_as_owner a'
          || exists_where (is_other_owner a) db.accounts)
        ≡ true
      → Held start a db
      → Staffed start
          (record db { accounts = update_where (λ b. b.id == a.id) (λ b. a') db.accounts })
  unfolding is_other_owner
  Staffed-row a a' db keeps entitled stays (h, only) = (
    Distinct-update_where account_id _ _ (λ b k. ground (arith, keeps, k)) db.accounts h.0,
    h.1,
    left (Bool-cases (exists_where (is_other_owner a) db.accounts)),
    entitle db.accounts h.3 only,
  )
    where
      left :
          (exists_where (is_other_owner a) db.accounts ≡ true)
            ⊎ (exists_where (is_other_owner a) db.accounts ≡ false)
          → exists_where serves_as_owner (update_where (λ b. b.id == a.id) (λ b. a') db.accounts)
            ≡ true
      left (inl e) =
          exists_where-survives (is_other_owner a) serves_as_owner _ _ db.accounts
            (All-intro _ (λ b on. (λ k. ground (arith, on, k), λ k. ground (arith, on)))
              db.accounts)
            e
      left (inr e) =
          exists_where-survives serves_as_owner serves_as_owner _ _ db.accounts
            (All-mono
              (λ b same on. (
                λ k.
                    let t : serves_as_owner a ≡ true = rw (← (same k)) on in
                    ground (arith, stays, e, t),
                λ k. on,
              ))
              db.accounts only)
            h.2

      entitle :
          (accounts : List Account)
          → Entitled start accounts db.role_changes
          → Only a accounts
          → Entitled start (update_where (λ b. b.id == a.id) (λ b. a') accounts) db.role_changes
      entitle accounts e only =
          All-update_where {P = Sole a start db.role_changes} _ _
            (λ b o k. entitled (rw (← (o.1 k)) o.0)) (λ b o k. o.0) accounts
            (All-zip _ _ (Sole a start db.role_changes) (λ b x y. (x, y)) accounts e only)

  -- An UPDATE that leaves id, role and activity alone.
  pub Staffed-plain :
      (a a' : Account) (db : Db)
      → a'.id ≡ a.id
      → a'.role ≡ a.role
      → a'.is_active ≡ a.is_active
      → Held start a db
      → Staffed start
          (record db { accounts = update_where (λ b. b.id == a.id) (λ b. a') db.accounts })
  Staffed-plain a a' db id role active =
      Staffed-row a a' db id (λ e. rw (id, role) e) (rw (role, active) (ground arith))

  pub Staffed-insert_account :
      (a : Account) (db : Db)
      → exists_where (λ b. b.id == a.id) db.accounts ≡ false
      → is_owner a.role ≡ false
      → Staffed start db
      → Staffed start (record db { accounts = a ∷ db.accounts })
  unfolding exists_where
  Staffed-insert_account a db fresh plain h = (
    (exists_where-none _ db.accounts fresh, h.0),
    h.1,
    ground (arith, h.2),
    (ground (arith, plain), h.3),
  )

  -- Changes of requests after which each account that was promoted still is.
  promoted-kept :
      (old new : List RoleChange)
      → ((id : ℕ) → exists_where (promotes id) old ≡ true → exists_where (promotes id) new ≡ true)
      → (accounts : List Account) → Entitled start accounts old
      → Entitled start accounts new
  promoted-kept old new keeps accounts =
      All-mono
        (λ a e. elim (Bool-cases (exists_where (promotes a.id) old)) [
          | inl k ↦ ground (arith, keeps a.id k)
          | inr k ↦ ground (arith, e, k)
        ])
        accounts

  -- An UPDATE of requests that are not completed.
  pub Staffed-changes :
      (p : RoleChange → Bool) (f : RoleChange → RoleChange) (db : Db)
      → ((c : RoleChange) → (f c).id ≡ c.id)
      → All (λ c. p c ≡ true → is_completed c.status ≡ false) db.role_changes
      → Staffed start db
      → Staffed start (record db { role_changes = update_where p f db.role_changes })
  Staffed-changes p f db keeps unfinished h = (
    h.0,
    Distinct-update_where change_id p f (λ c k. keeps c) db.role_changes h.1,
    h.2,
    promoted-kept db.role_changes _
        (λ id. exists_where-survives (promotes id) (promotes id) p f db.role_changes (
          All-mono (λ c u on. (λ k. let off = u k in ground (arith, on, off), λ k. on))
            db.role_changes unfinished))
        db.accounts h.3,
  )

  pub Staffed-insert_change :
      (c : RoleChange) (db : Db)
      → exists_where (λ d. d.id == c.id) db.role_changes ≡ false
      → Staffed start db
      → Staffed start (record db { role_changes = c ∷ db.role_changes })
  unfolding exists_where
  Staffed-insert_change c db fresh h = (
    h.0,
    (exists_where-none _ db.role_changes fresh, h.1),
    h.2,
    promoted-kept db.role_changes (c ∷ db.role_changes) (λ id on. ground (arith, on)) db.accounts
        h.3,
  )
