-- ===== src/System/Organizations.antt =====
-- The calls of the membership service leave the tables of organizations and sessions alone.
use multi_tenant_authorizati.Base.{◌≡◌, refl, ◌∙◌, String, List, arith}
use multi_tenant_authorizati.Db.Schema.{
  Uuid, Time, Digest, RoleKind, Invitation, Organization, Session, Db,
}
use multi_tenant_authorizati.Db.Go.{Env, World}
use multi_tenant_authorizati.Db.Driver.{Driver}
use multi_tenant_authorizati.Db.Keeps.{Keeps, keeps_rules}
use multi_tenant_authorizati.Membership.Repository.{
  get_member_role_kind, get_role_kind_by_id, organization_status, get_organization_type,
  get_active_invitation_by_token_hash, get_invitation_by_id, count_active_owners, remove_member,
  update_member_role, create_membership, create_link_invitation, revoke_invitation,
  mark_invitation_accepted,
}
use multi_tenant_authorizati.Membership.Service.{
  remove_tx, assign_role_tx, leave_tx, accept_tx, rotate_tx, remove, assign_role, leave, invite,
  accept, rotate_invite, new_invite_token,
}
use multi_tenant_authorizati.Membership.System.{
  Call, remove_member as remove_call, assign_member_role, leave_org, invite_member, accept_invite,
  replace_invite, perform,
}

module _ (os : List Organization) (ss : List Session) where
  -- The organizations and the sessions are still these.
  abbrev Still : Db → Type 0
  Still d = (os ≡ d.organizations) × (ss ≡ d.sessions)

  remove_member-Still : (org user : Uuid) → Keeps Still (remove_member org user)
  unfolding remove_member
  remove_member-Still org user = record { at = λ e w h. (h.0 ∙ ground arith, h.1 ∙ ground arith) }

  update_member_role-Still : (org user r : Uuid) → Keeps Still (update_member_role org user r)
  unfolding update_member_role
  update_member_role-Still org user r = record {
    at = λ e w h. (h.0 ∙ ground arith, h.1 ∙ ground arith);
  }

  create_membership-Still : (org user r : Uuid) → Keeps Still (create_membership org user r)
  unfolding create_membership
  create_membership-Still org user r = record {
    at = λ e w h. (h.0 ∙ ground arith, h.1 ∙ ground arith);
  }

  create_link_invitation-Still :
      (org r creator : Uuid) (token : Digest) (expires : Time)
      → Keeps Still (create_link_invitation org r creator token expires)
  unfolding create_link_invitation
  create_link_invitation-Still org r creator token expires = record {
    at = λ e w h. (h.0 ∙ ground arith, h.1 ∙ ground arith);
  }

  revoke_invitation-Still : (id : Uuid) → Keeps Still (revoke_invitation id)
  unfolding revoke_invitation
  revoke_invitation-Still id = record { at = λ e w h. (h.0 ∙ ground arith, h.1 ∙ ground arith) }

  mark_invitation_accepted-Still : (id : Uuid) → Keeps Still (mark_invitation_accepted id)
  unfolding mark_invitation_accepted
  mark_invitation_accepted-Still id = record {
    at = λ e w h. (h.0 ∙ ground arith, h.1 ∙ ground arith);
  }

ruleset still_rules = (
  keeps_rules, remove_member-Still, update_member_role-Still, create_membership-Still,
  create_link_invitation-Still, revoke_invitation-Still, mark_invitation_accepted-Still,
)

module _ (os : List Organization) (ss : List Session) where
  remove_tx-Still : (org actor target : Uuid) → Keeps (Still os ss) (remove_tx org actor target)
  unfolding remove_tx get_member_role_kind count_active_owners
  remove_tx-Still org actor target = search still_rules depth 9

  assign_role_tx-Still :
      (k : RoleKind) (org actor target r : Uuid)
      → Keeps (Still os ss) (assign_role_tx k org actor target r)
  unfolding assign_role_tx get_member_role_kind count_active_owners
  assign_role_tx-Still k org actor target r = search still_rules depth 9

  leave_tx-Still : (org user : Uuid) → Keeps (Still os ss) (leave_tx org user)
  unfolding leave_tx get_member_role_kind count_active_owners organization_status
  leave_tx-Still org user = search still_rules depth 9

  accept_tx-Still : (inv : Invitation) (user : Uuid) → Keeps (Still os ss) (accept_tx inv user)
  unfolding accept_tx
  accept_tx-Still inv user = search still_rules

  rotate_tx-Still :
      (inv : Invitation) (org actor : Uuid) (token : Digest) (expires : Time)
      → Keeps (Still os ss) (rotate_tx inv org actor token expires)
  unfolding rotate_tx
  rotate_tx-Still inv org actor token expires = search still_rules

ruleset still_tx_rules = (
  still_rules, remove_tx-Still, assign_role_tx-Still, leave_tx-Still, accept_tx-Still,
  rotate_tx-Still,
)

module _ (sha256 : String → Digest) (pg : Driver) where
  perform-Still :
      (os : List Organization) (ss : List Session) (c : Call)
      → Keeps (Still os ss) (perform sha256 pg c)
  unfolding perform remove assign_role leave invite accept rotate_invite get_role_kind_by_id
      get_organization_type get_member_role_kind get_active_invitation_by_token_hash
      get_invitation_by_id new_invite_token
  perform-Still os ss (remove_call org actor target) = search still_tx_rules
  perform-Still os ss (assign_member_role org actor target r) = search still_tx_rules
  perform-Still os ss (leave_org org user) = search still_tx_rules
  perform-Still os ss (invite_member org inviter r) = search still_tx_rules depth 15
  perform-Still os ss (accept_invite user raw) = search still_tx_rules depth 11
  perform-Still os ss (replace_invite org actor id) = search still_tx_rules depth 15

  -- A call of the membership service changes no organization.
  pub perform_organizations :
      (c : Call) (e : Env) (w : World)
      → w.db.organizations ≡ (perform sha256 pg c e w).1.db.organizations
  perform_organizations c e w =
      ((perform-Still w.db.organizations w.db.sessions c).at e w (refl, refl)).0

  -- It changes no session either.
  pub perform_sessions :
      (c : Call) (e : Env) (w : World) → w.db.sessions ≡ (perform sha256 pg c e w).1.db.sessions
  perform_sessions c e w =
      ((perform-Still w.db.organizations w.db.sessions c).at e w (refl, refl)).1
