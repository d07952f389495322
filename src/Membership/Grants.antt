-- ===== src/Membership/Grants.antt =====
-- Invite and RotateInvite: what a call that succeeds has issued, and under which conditions.
use multi_tenant_authorizati.Base.{◌≡◌, refl, sym, subst, String, ◌+◌}
use multi_tenant_authorizati.Apperrors.{ok, personal_workspace, external}
use multi_tenant_authorizati.Db.Schema.{Uuid, Digest, Invitation, Db, is_owner, is_personal}
use multi_tenant_authorizati.Db.Go.{Env, World}
use multi_tenant_authorizati.Db.Driver.{Driver}
use multi_tenant_authorizati.Db.Ensures.{
  Ensures, Ensures-bind, Ensures-if, Ensures-raise_if, Ensures-weaken, Ensures-assume,
  Ensures-begin_func, Ensures-now, Ensures-pure, Ensures-frame, Ensures-random_text,
}
use multi_tenant_authorizati.Membership.Service.{
  InviteResult, invite, rotate_invite, new_invite_token, invitation_ttl,
}
use multi_tenant_authorizati.Membership.Guards.{
  require_owner_actor-Ensures, get_role_kind_by_id-Ensures, get_organization_type-Ensures,
  get_invitation_by_id-Ensures,
}
use multi_tenant_authorizati.Membership.Issue.{
  Issued, MayInvite, MayRotate, Closed, create_link_invitation-Issued, may_invite, may_rotate,
  rotate_tx-Ensures,
}

new_invite_token-Ensures : {P : Db → Type 0} → Ensures P new_invite_token (λ _ d. P d)
unfolding new_invite_token
new_invite_token-Ensures = Ensures-random_text external

module _ (sha256 : String → Digest) where
  -- A call of Invite that succeeds was allowed: the organization is active and not personal, the
  -- role is one of its roles, and for the role of an owner the inviter is an owner. The token that
  -- it returns resolves to an active invitation of the organization to that role, until the time
  -- returned.
  pub invite-Issued :
      (org inviter role : Uuid) (result : InviteResult) (e : Env) (w : World)
      → (invite sha256 org inviter role e w).0 ≡ ok result
      → MayInvite org inviter role w.db
        × Issued
            (sha256 result.token)
            org
            role
            result.expires_at
            (invite sha256 org inviter role e w).1.db
  unfolding invite
  invite-Issued org inviter role result e w h =
      (Ensures-bind {P = λ d. d ≡ w.db} {Q = Goal} (get_organization_type-Ensures org) λ t.
          Ensures-bind (Ensures-raise_if (is_personal t) personal_workspace) λ _.
            Ensures-bind (get_role_kind_by_id-Ensures org role) λ k.
              Ensures-bind (Ensures-if (is_owner k) tt _ (require_owner_actor-Ensures org inviter))
                λ _.
                  Ensures-assume (λ d q. may_invite t k org inviter role w.db d q)
                    (Ensures-bind new_invite_token-Ensures λ raw. Ensures-bind Ensures-now λ n.
                      Ensures-bind
                        (Ensures-frame (
                          create_link_invitation-Issued org role inviter (sha256 raw)
                            (n + invitation_ttl)))
                        λ _.
                          Ensures-weaken (λ a d q. subst (λ x. Goal x d) (sym q.1) q.0)
                            (Ensures-pure _))).at
        e w result refl h
    where
      Goal : InviteResult → Db → Type 0
      Goal a d = MayInvite org inviter role w.db × Issued (sha256 a.token) org role a.expires_at d

  -- A call of RotateInvite that succeeds was allowed: the invitation is one of the organization,
  -- which is active, and for the role of an owner the actor is an owner. Afterwards the old
  -- invitation is closed, and the token that it returns resolves to an active invitation to the
  -- same role.
  pub rotate_invite-Issued :
      (pg : Driver) (org actor id : Uuid) (result : InviteResult) (e : Env) (w : World)
      → (rotate_invite sha256 pg org actor id e w).0 ≡ ok result
      → (i : Invitation) × MayRotate org actor id i w.db
        × Issued
            (sha256 result.token)
            org
            i.role_id
            result.expires_at
            (rotate_invite sha256 pg org actor id e w).1.db
        × Closed i.id (rotate_invite sha256 pg org actor id e w).1.db
  unfolding rotate_invite
  rotate_invite-Issued pg org actor id result e w h =
      (Ensures-bind {P = λ d. d ≡ w.db} {Q = Goal} (get_invitation_by_id-Ensures org id) λ i.
          Ensures-bind (get_role_kind_by_id-Ensures org i.role_id) λ k.
            Ensures-bind (Ensures-if (is_owner k) tt _ (require_owner_actor-Ensures org actor)) λ _.
              Ensures-assume (λ d q. may_rotate i k org actor id w.db d q)
                (Ensures-bind new_invite_token-Ensures λ raw. Ensures-bind Ensures-now λ n.
                  Ensures-bind
                    (Ensures-frame (
                      Ensures-begin_func pg
                        (rotate_tx-Ensures i org actor (sha256 raw) (n + invitation_ttl))))
                    λ _.
                      Ensures-weaken
                        (λ a d q. subst (λ x. Goal x d) (sym q.1) (i, q.0.0, q.0.1.0, q.0.1.1))
                        (Ensures-pure _))).at
        e w result refl h
    where
      Goal : InviteResult → Db → Type 0
      Goal a d =
          (i : Invitation) × MayRotate org actor id i w.db
          × Issued (sha256 a.token) org i.role_id a.expires_at d
          × Closed i.id d
