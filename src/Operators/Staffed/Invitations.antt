-- ===== src/Operators/Staffed/Invitations.antt =====
-- Invitations keep the tables staffed: nobody is invited as an Owner.
use rustdesk_managed_directo.Common.{ℕ, String, ◌≡◌, false, Option, none, some, List}
use rustdesk_managed_directo.Http.{Tx, Reply}
use rustdesk_managed_directo.Http.Keeps.{
  Keeps, Hoare-bind, Hoare-gets, Hoare-raise_if, Hoare-modify, Hoare-fact, Keeps-pure, Keeps-raise,
  Keeps-if, Keeps-raise_if, Keeps-modify, Keeps-gets, Keeps-bind,
}
use rustdesk_managed_directo.Store.{Account, Invitation, Db, is_owner}
use rustdesk_managed_directo.Store.Env.{Env}
use rustdesk_managed_directo.Lifecycle.{Context}
use rustdesk_managed_directo.Operators.Gates.{Operator}
use rustdesk_managed_directo.Operators.Invitations.{
  InvitationRequest, AcceptRequest, insert_invitation, create_operator_invitation, refuse_expired,
  revoke_operator_invitation, pending_invitation_for_token, with_invitation,
  setup_operator_invitation, insert_account, accept_named, accept_operator_invitation,
}
use rustdesk_managed_directo.Operators.Staffed.{Staffed}
use rustdesk_managed_directo.Operators.Staffed.Updates.{Staffed-insert_account}
use rustdesk_managed_directo.Operators.Staffed.Lifecycle.{take-Staffed, audit-Staffed}

module _ (start : List Account) where
  insert_invitation-Staffed :
      (env : Env) (i : Invitation) → Keeps (Staffed start) (insert_invitation env i)
  unfolding insert_invitation
  insert_invitation-Staffed env i =
      Keeps-bind _ _ (Keeps-gets _)
        λ c. Keeps-bind _ _ (Keeps-raise_if _ _) λ _. Keeps-modify _ λ s h. h

  pub invite-Staffed :
      (env : Env) (ctx : Context) (o : Operator) (r : InvitationRequest)
      → Keeps (Staffed start) (create_operator_invitation env ctx o r)
  unfolding create_operator_invitation
  invite-Staffed env ctx o r = Keeps-bind _ _ (Keeps-raise_if _ _) λ _.
      Keeps-bind _ _ (Keeps-raise_if _ _) λ _. Keeps-bind _ _ (Keeps-modify _ λ s h. h) λ _.
        Keeps-bind _ _ (Keeps-gets _) λ a. Keeps-bind _ _ (Keeps-raise_if _ _) λ _.
          Keeps-bind _ _ (Keeps-gets _) λ b. Keeps-bind _ _ (Keeps-raise_if _ _) λ _.
            Keeps-bind _ _ (insert_invitation-Staffed env _)
              λ _. Keeps-bind _ _ (audit-Staffed start _) λ _. Keeps-pure _

  refuse_expired-Staffed :
      {A : Type 0} (i : Invitation) → Keeps (Staffed start) (refuse_expired {A = A} i)
  unfolding refuse_expired
  refuse_expired-Staffed i = Keeps-bind _ _ (Keeps-modify _ λ s h. h) λ _. Keeps-pure _

  pub revoke_invitation-Staffed :
      (env : Env) (ctx : Context) (o : Operator) (id : ℕ) (reason : String)
      → Keeps (Staffed start) (revoke_operator_invitation env ctx o id reason)
  unfolding revoke_operator_invitation
  revoke_invitation-Staffed env ctx o id reason = Keeps-bind _ _ (Keeps-gets _) λ a.
      Keeps-bind _ _ (take-Staffed start a _) λ i. Keeps-if _ _ _ (refuse_expired-Staffed i) (
        Keeps-bind _ _ (Keeps-raise_if _ _) λ _.
          Keeps-bind _ _ (Keeps-modify _ λ s h. h)
            λ _. Keeps-bind _ _ (audit-Staffed start _) λ _. Keeps-pure _)

  -- What goes on with an invitation does so for a Manager or a viewer.
  with_invitation-Staffed :
      {A : Type 0} (env : Env) (now : ℕ) (token : String) (next : Invitation → Tx Db (Reply A))
      → ((i : Invitation) → is_owner i.requested_role ≡ false → Keeps (Staffed start) (next i))
      → Keeps (Staffed start) (with_invitation env now token next)
  unfolding with_invitation pending_invitation_for_token
  with_invitation-Staffed env now token next k =
      Keeps-bind _ _ (Keeps-bind _ _ (Keeps-gets _) λ a. take-Staffed start a _) λ i.
        Keeps-bind _ _ (Keeps-raise_if _ _) λ _.
          Keeps-if _ _ _ (refuse_expired-Staffed i)
            (Hoare-bind _ _ (Hoare-raise_if _ _) λ _. Hoare-fact _ λ plain. k i plain)

  pub setup-Staffed :
      (env : Env) (now : ℕ) (token : String)
      → Keeps (Staffed start) (setup_operator_invitation env now token)
  unfolding setup_operator_invitation
  setup-Staffed env now token = with_invitation-Staffed env now token _ λ i plain. Keeps-pure _

  insert_account-Staffed :
      (a : Account) → is_owner a.role ≡ false → Keeps (Staffed start) (insert_account a)
  unfolding insert_account
  insert_account-Staffed a plain = Hoare-bind _ _ (Hoare-gets {P = Staffed start} _) λ clash.
      Hoare-bind _ _ (Hoare-raise_if _ _)
        λ _. Hoare-modify _ λ s h. Staffed-insert_account start a s (cc (h.0.1, h.1)) plain h.0.0

  accept_named-Staffed :
      (env : Env) (ctx : Context) (salt : String) (r : AcceptRequest) (i : Invitation)
      (username : Option String)
      → is_owner i.requested_role ≡ false
      → Keeps (Staffed start) (accept_named env ctx salt r i username)
  unfolding accept_named
  accept_named-Staffed env ctx salt r i none plain = Keeps-raise _
  accept_named-Staffed env ctx salt r i (some username) plain = Keeps-bind _ _ (Keeps-gets _) λ a.
      Keeps-bind _ _ (Keeps-raise_if _ _) λ _. Keeps-bind _ _ (insert_account-Staffed _ plain) λ _.
        Keeps-bind _ _ (Keeps-modify _ λ s h. h)
          λ _. Keeps-bind _ _ (audit-Staffed start _) λ _. Keeps-pure _

  pub accept-Staffed :
      (env : Env) (ctx : Context) (salt : String) (r : AcceptRequest)
      → Keeps (Staffed start) (accept_operator_invitation env ctx salt r)
  unfolding accept_operator_invitation
  accept-Staffed env ctx salt r =
      with_invitation-Staffed env ctx.now r.invitation_token _ λ i plain.
        Keeps-bind _ _ (Keeps-raise_if _ _)
          λ _. accept_named-Staffed env ctx salt r i i.proposed_username plain
