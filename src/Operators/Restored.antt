-- ===== src/Operators/Restored.antt =====
-- A link that reset the access to an account has had its use, and with it the sessions end.
use rustdesk_managed_directo.Common.{
  ℕ, String, ◌≡◌, ◌≢◌, ◌∙◌, sym, refl, true, false, some, List, ◌==◌, ==_iff, arith, str_eq,
  is_null, find_where_sound, All, All-intro, All-update_where, All-find_where,
}
use rustdesk_managed_directo.Http.{Outcome, done, raised, continue, Tx, Reply, ◌>>=◌}
use rustdesk_managed_directo.Http.Keeps.{
  Ends, Hoare, Hoare-bind, Hoare-gets, Hoare-raise_if, Hoare-modify, Hoare-pure, Keeps-raise_if,
  Keeps-pure,
}
use rustdesk_managed_directo.Store.{Session, Reset, Db}
use rustdesk_managed_directo.Store.Env.{Env}
use rustdesk_managed_directo.Store.Queries.{write_audit}
use rustdesk_managed_directo.Lifecycle.{Context}
use rustdesk_managed_directo.Operators.Sessions.{require_operator}
use rustdesk_managed_directo.Operators.Accounts.{live_account}
use rustdesk_managed_directo.Operators.Resets.{
  ResetAcceptRequest, reset_token_hash, has_reset_token, get_reset, operator_access_reset_setup,
  end_sessions, operator_access_reset_accept,
}
use rustdesk_managed_directo.Operators.Revoked.{Out, require_operator-Out}
use rustdesk_managed_directo.Operators.Staffed.Lifecycle.{Hoare-found}

-- The digest of the token is that of the link `k`, for one account.
abbrev pub LinkOf : Env → String → ℕ → ℕ → Reset → Type 0
LinkOf env token k account q =
    str_eq q.token_hash (reset_token_hash env token) ≡ true → (q.id ≡ k) × (q.account_id ≡ account)

abbrev Used : Env → String → Reset → Type 0
Used env token q =
    str_eq q.token_hash (reset_token_hash env token) ≡ true → is_null q.used_at ≡ false

end_sessions-Out :
    (now id : ℕ) (sessions : List Session) → All (Out id) (end_sessions now id sessions)
unfolding end_sessions
end_sessions-Out now id sessions =
    All-update_where {P = λ s. Unit {0}} _ _ (λ s h p. ground arith) (λ s h p. ground (arith, p))
      sessions (All-intro (λ s. Unit {0}) (λ s. tt) sessions)

-- A transaction that cannot go on after its first part.
never-bind :
    {A B : Type 0} (m : Tx Db A) (f : A → Tx Db B) (s : Db)
    → Ends (λ _ _. ⊥) (m s)
    → Ends (λ _ _. ⊥) ((m >>= f) s)
unfolding ◌>>=◌
never-bind {A} {B} m f s h = go (m s) h
  where
    go : (t : Outcome Db A) → Ends (λ _ _. ⊥) t → Ends (λ (b : B) _. ⊥) (continue t f)
    go (done a t) h = absurd h
    go (raised e) h = tt

module _ (env : Env) (token : String) (k account : ℕ) where
  abbrev Links : Db → Type 0
  Links s = All (LinkOf env token k account) s.resets

  -- The row and its account.
  get_reset-tells :
      (now : ℕ)
      → Hoare Links
          (get_reset env now token)
          (λ row s. Links s × (row.0.id ≡ k) × (row.1.id ≡ account))
  unfolding get_reset has_reset_token live_account
  get_reset-tells now = Hoare-bind _ _ (Hoare-gets {P = Links} _) λ r'.
      Hoare-bind _ _ (Hoare-found _ r' _) λ r. Hoare-bind _ _ (Hoare-gets _) λ a'.
        Hoare-bind _ _ (Hoare-found _ a' _) λ a. Hoare-bind _ _ (Keeps-raise_if _ _) λ _.
          Hoare-bind _ _ (Keeps-raise_if _ _) λ _. Hoare-pure _ λ s h.
            let at = sym h.0.0.0.1 ∙ h.0.0.1 in
            let p = find_where_sound _ s.resets at in
            let link =
              All-find_where (LinkOf env token k account) _ s.resets h.0.0.0.0 at
                (ground (arith, p)) in
            let q = find_where_sound _ s.accounts (sym h.0.1 ∙ h.1) in
            (h.0.0.0.0, link.0, (==_iff a.id r.account_id).0 (ground (arith, q)) ∙ link.1)

  get_reset-Used :
      (now : ℕ) → Hoare (λ s. All (Used env token) s.resets) (get_reset env now token) (λ _ _. ⊥)
  unfolding get_reset has_reset_token
  get_reset-Used now = Hoare-bind _ _ (Hoare-gets _) λ r'. Hoare-bind _ _ (Hoare-found _ r' _) λ r.
      Hoare-bind _ _ (Hoare-gets _) λ a'. Hoare-bind _ _ (Hoare-found _ a' _) λ a.
        Hoare-bind _ _ (Hoare-raise_if _ _) λ _. record {
          at = λ s h.
              let at = sym h.0.0.0.0.1 ∙ h.0.0.0.1 in
              let p = find_where_sound _ s.resets at in
              let used =
                All-find_where (Used env token) _ s.resets h.0.0.0.0.0 at (ground (arith, p)) in
              absurd (let e : false ≡ true = ground (arith, used, h.1) in cc e);
        }

  accept-Used :
      (ctx : Context) (salt : String) (p : ResetAcceptRequest)
      → Hoare Links
          (operator_access_reset_accept env ctx salt (record p { reset_token = token }))
          (λ _ s. All (Used env token) s.resets × All (Out account) s.sessions)
  unfolding operator_access_reset_accept write_audit
  accept-Used ctx salt p = Hoare-bind _ _ (get_reset-tells ctx.now) λ row.
      Hoare-bind _ _ (Keeps-raise_if _ _) λ _. Hoare-bind _ _ (Keeps-raise_if _ _) λ _.
        Hoare-bind _ _
          (Hoare-modify {Q = λ _ s. All (Used env token) s.resets × All (Out account) s.sessions} _
            λ s h. (
              All-update_where _ _ (λ q l e u. refl)
                  (λ q l e u. absurd (missed q row.0 (l u).0 h.1 e)) s.resets h.0,
              rw (← h.2) (end_sessions-Out ctx.now row.1.id s.sessions),
            ))
          λ _. Hoare-bind _ _ (record { at = λ s h. h }) λ _. Keeps-pure _
    where
      missed : (q r : Reset) → q.id ≡ k → r.id ≡ k → (q.id == r.id) ≡ false → ⊥
      missed q r e f off = absurd (let c : false ≡ true = ground (arith, e, f, off) in cc c)

-- Where the digest of a token is that of one link only, for one account, then after the link is used no
-- use of it goes on, neither to set up nor to accept, and no access token lets a request in for the
-- account, at any time.
pub operator_access_reset_accept-Used :
    (env : Env) (ctx : Context) (salt : String) (p : ResetAcceptRequest) (db : Db) (k account : ℕ)
    → All (LinkOf env p.reset_token k account) db.resets
    → (later : Context) (salt' : String) (p' : ResetAcceptRequest) (access : String)
    → Ends
        (λ _ t.
          Ends (λ _ _. ⊥) (operator_access_reset_setup env later.now p.reset_token t)
          × Ends
              (λ _ _. ⊥)
              (operator_access_reset_accept env later salt'
                (record p' { reset_token = p.reset_token })
                t)
          × Ends (λ o _. o.account_id ≢ account) (require_operator env later.now (some access) t))
        (operator_access_reset_accept env ctx salt p db)
unfolding operator_access_reset_setup operator_access_reset_accept
operator_access_reset_accept-Used env ctx salt p db k account links later salt' p' access =
    go (operator_access_reset_accept env ctx salt p db)
      ((accept-Used env p.reset_token k account ctx salt p).at db links)
  where
    go :
        (t : Outcome Db (Reply (Unit {0})))
        → Ends (λ _ s. All (Used env p.reset_token) s.resets × All (Out account) s.sessions) t
        → Ends
            (λ _ t.
              Ends (λ _ _. ⊥) (operator_access_reset_setup env later.now p.reset_token t)
              × Ends
                  (λ _ _. ⊥)
                  (operator_access_reset_accept env later salt'
                    (record p' { reset_token = p.reset_token })
                    t)
              × Ends
                  (λ o _. o.account_id ≢ account)
                  (require_operator env later.now (some access) t))
            t
    go (raised e) h = tt
    go (done r t) h = (
      never-bind _ _ t ((get_reset-Used env p.reset_token k account later.now).at t h.0),
      never-bind _ _ t ((get_reset-Used env p.reset_token k account later.now).at t h.0),
      require_operator-Out env later.now access t account h.1,
    )
