-- ===== src/Membership/Atomic.antt =====
-- What a call of the service that fails leaves behind.
use multi_tenant_authorizati.Base.{◌≡◌, inl, arith}
use multi_tenant_authorizati.Apperrors.{external, database}
use multi_tenant_authorizati.Db.Schema.{Uuid, Time, Digest, RoleKind, Invitation}
use multi_tenant_authorizati.Db.Driver.{Driver}
use multi_tenant_authorizati.Db.Atomic.{
  Aftermath, Atomic, Completes, Atomic-bind, Atomic-map, reads_rules,
}
use multi_tenant_authorizati.Membership.Repository.{create_link_invitation}
use multi_tenant_authorizati.Membership.Service.{
  remove_tx, assign_role_tx, leave_tx, accept_tx, rotate_tx,
}
use multi_tenant_authorizati.Membership.System.{
  Call, remove_member, assign_member_role, leave_org, invite_member, accept_invite, replace_invite,
}

-- What a call that reports an error may leave behind. Where its transaction reports that the COMMIT
-- failed, all that the transaction does; Invite has no transaction, and where its INSERT reports a
-- failure the row may be there.
abbrev pub Remains : Call → Aftermath
Remains (remove_member org actor target) x e d d' =
    (x ≡ external) × Completes (remove_tx org actor target) e d d'
Remains (assign_member_role org actor target r) x e d d' =
    (x ≡ external) × (kind : RoleKind) × Completes (assign_role_tx kind org actor target r) e d d'
Remains (leave_org org user) x e d d' = (x ≡ external) × Completes (leave_tx org user) e d d'
Remains (invite_member org inviter r) x e d d' = x ≡ database
Remains (accept_invite user raw) x e d d' =
    (x ≡ external) × (i : Invitation) × Completes (accept_tx i user) e d d'
Remains (replace_invite org actor id) x e d d' =
    (x ≡ external)
    × (i : Invitation) × (token : Digest) × (expires : Time) × Completes
        (rotate_tx i org actor token expires) e d d'

create_link_invitation-Atomic :
    (X : Aftermath) (org r creator : Uuid) (token : Digest) (expires : Time)
    → Atomic X (create_link_invitation org r creator token expires)
unfolding create_link_invitation
create_link_invitation-Atomic X org r creator token expires = record {
  at = λ e w x h. inl (ground arith);
}

ruleset atomic_rules = (reads_rules, Atomic-map, Atomic-bind, create_link_invitation-Atomic)
