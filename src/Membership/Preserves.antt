-- ===== src/Membership/Preserves.antt =====
-- Every operation of the service keeps the schema's promises, and fails without a trace in a
-- transaction.
use multi_tenant_authorizati.Base.{refl, arith, String}
use multi_tenant_authorizati.Db.RowLaws.{delete-Unique, delete-All}
use multi_tenant_authorizati.Db.Schema.{Uuid, Time, Digest, RoleKind, Invitation, InviteStatus}
use multi_tenant_authorizati.Db.Keeps.{Keeps, keeps_rules}
use multi_tenant_authorizati.Db.Driver.{Driver}
use multi_tenant_authorizati.Membership.Repository.{
  is_member, get_member_role_kind, get_role_kind_by_id, organization_status, get_organization_type,
  get_active_invitation_by_token_hash, get_invitation_by_id, count_active_owners, remove_member,
  update_member_role, create_membership, create_link_invitation, revoke_invitation,
  mark_invitation_accepted, is_active_invite,
}
use multi_tenant_authorizati.Membership.Service.{
  remove_tx, assign_role_tx, leave_tx, accept_tx, rotate_tx, remove, assign_role, leave, invite,
  accept, rotate_invite, new_invite_token,
}
use multi_tenant_authorizati.Membership.Valid.{
  IsValid, RoleInOrg, set_role-Unique, set_role-RoleInOrg, close-Unique, close-InviteInOrg,
}
use multi_tenant_authorizati.Membership.Owners.{same_member}

remove_member-IsValid : (org user : Uuid) → Keeps IsValid (remove_member org user)
unfolding remove_member
remove_member-IsValid org user = record {
  at = λ e w v. ground (
    arith,
    delete-Unique (is_member org user) same_member w.db.memberships v.unique_members,
    delete-All (is_member org user) (RoleInOrg w.db.roles) w.db.memberships v.roles_in_org,
  );
}

update_member_role-IsValid : (org user r : Uuid) → Keeps IsValid (update_member_role org user r)
unfolding update_member_role
update_member_role-IsValid org user r = record {
  at = λ e w v. ground (
    arith,
    set_role-Unique org user r w.db.memberships v.unique_members,
    set_role-RoleInOrg org user r w.db.roles w.db.memberships,
  );
}

create_membership-IsValid : (org user r : Uuid) → Keeps IsValid (create_membership org user r)
unfolding create_membership
create_membership-IsValid org user r = record { at = λ e w v. ground arith }

create_link_invitation-IsValid :
    (org r creator : Uuid) (token : Digest) (expires : Time)
    → Keeps IsValid (create_link_invitation org r creator token expires)
unfolding create_link_invitation
create_link_invitation-IsValid org r creator token expires = record { at = λ e w v. ground arith }

revoke_invitation-IsValid : (id : Uuid) → Keeps IsValid (revoke_invitation id)
unfolding revoke_invitation
revoke_invitation-IsValid id = record {
  at = λ e w v. ground (
    arith,
    close-Unique InviteStatus.revoked refl (is_active_invite id) w.db.invitations v.unique_tokens,
    close-InviteInOrg InviteStatus.revoked refl (is_active_invite id) w.db.roles w.db.invitations
        v.invites_in_org,
  );
}

mark_invitation_accepted-IsValid : (id : Uuid) → Keeps IsValid (mark_invitation_accepted id)
unfolding mark_invitation_accepted
mark_invitation_accepted-IsValid id = record {
  at = λ e w v. ground (
    arith,
    close-Unique InviteStatus.accepted refl (is_active_invite id) w.db.invitations v.unique_tokens,
    close-InviteInOrg InviteStatus.accepted refl (is_active_invite id) w.db.roles w.db.invitations
        v.invites_in_org,
  );
}

ruleset valid_rules = (
  keeps_rules, remove_member-IsValid, update_member_role-IsValid, create_membership-IsValid,
  create_link_invitation-IsValid, revoke_invitation-IsValid, mark_invitation_accepted-IsValid,
)

remove_tx-IsValid : (org actor target : Uuid) → Keeps IsValid (remove_tx org actor target)
unfolding remove_tx get_member_role_kind count_active_owners
remove_tx-IsValid org actor target = search valid_rules depth 9

assign_role_tx-IsValid :
    (k : RoleKind) (org actor target r : Uuid) → Keeps IsValid (assign_role_tx k org actor target r)
unfolding assign_role_tx get_member_role_kind count_active_owners
assign_role_tx-IsValid k org actor target r = search valid_rules depth 9

leave_tx-IsValid : (org user : Uuid) → Keeps IsValid (leave_tx org user)
unfolding leave_tx get_member_role_kind count_active_owners organization_status
leave_tx-IsValid org user = search valid_rules depth 9

accept_tx-IsValid : (inv : Invitation) (user : Uuid) → Keeps IsValid (accept_tx inv user)
unfolding accept_tx
accept_tx-IsValid inv user = search valid_rules

rotate_tx-IsValid :
    (inv : Invitation) (org actor : Uuid) (token : Digest) (expires : Time)
    → Keeps IsValid (rotate_tx inv org actor token expires)
unfolding rotate_tx
rotate_tx-IsValid inv org actor token expires = search valid_rules

ruleset tx_rules = (
  valid_rules, remove_tx-IsValid, assign_role_tx-IsValid, leave_tx-IsValid, accept_tx-IsValid,
  rotate_tx-IsValid,
)

module _ (pg : Driver) where
  pub remove-IsValid : (org actor target : Uuid) → Keeps IsValid (remove pg org actor target)
  unfolding remove
  remove-IsValid org actor target = search tx_rules

  pub assign_role-IsValid :
      (org actor target r : Uuid) → Keeps IsValid (assign_role pg org actor target r)
  unfolding assign_role get_role_kind_by_id
  assign_role-IsValid org actor target r = search tx_rules

  pub leave-IsValid : (org user : Uuid) → Keeps IsValid (leave pg org user)
  unfolding leave
  leave-IsValid org user = search tx_rules

module _ (sha256 : String → Digest) where
  pub invite-IsValid : (org inviter r : Uuid) → Keeps IsValid (invite sha256 org inviter r)
  unfolding invite get_organization_type get_role_kind_by_id get_member_role_kind new_invite_token
  invite-IsValid org inviter r = search tx_rules depth 15

  module _ (pg : Driver) where
    pub accept-IsValid : (user : Uuid) (raw : String) → Keeps IsValid (accept sha256 pg user raw)
    unfolding accept get_active_invitation_by_token_hash
    accept-IsValid user raw = search tx_rules depth 9

    pub rotate_invite-IsValid :
        (org actor inv : Uuid) → Keeps IsValid (rotate_invite sha256 pg org actor inv)
    unfolding rotate_invite get_invitation_by_id get_role_kind_by_id get_member_role_kind
        new_invite_token
    rotate_invite-IsValid org actor inv = search tx_rules depth 15
