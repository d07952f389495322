-- ===== src/Membership/Isolation.antt =====
-- Tenants are isolated: a call for one organization changes no permission in another.
use multi_tenant_authorizati.Base.{
  ◌≡◌, refl, Bool, false, ◌&&◌, ◌==◌, Option, some, none, String, arith,
}
use multi_tenant_authorizati.Db.RowLaws.{exists-delete_apart, exists-update_apart}
use multi_tenant_authorizati.Db.Schema.{Uuid, Time, Digest, Membership, Db, member_active}
use multi_tenant_authorizati.Db.Go.{Env, World}
use multi_tenant_authorizati.Db.Driver.{Driver}
use multi_tenant_authorizati.Db.Keeps.{Keeps, keeps_rules}
use multi_tenant_authorizati.Authz.{allows, org_is_active, role_grants}
use multi_tenant_authorizati.Membership.Repository.{
  is_member, set_role, remove_member, update_member_role, create_link_invitation, revoke_invitation,
  get_member_role_kind, get_role_kind_by_id, get_organization_type, organization_status,
  count_active_owners, get_invitation_by_id,
}
use multi_tenant_authorizati.Membership.Service.{
  remove, remove_tx, assign_role, assign_role_tx, leave, leave_tx, invite, rotate_invite, rotate_tx,
  new_invite_token,
}
use multi_tenant_authorizati.Membership.System.{
  Call, remove_member as remove_call, assign_member_role, leave_org, invite_member, accept_invite,
  replace_invite, perform,
}

module _ (user org' : Uuid) (key : String) (b : Bool) where
  -- The permission of the user in the organization `org'` is `b`.
  abbrev Answers : Db → Type 0
  Answers d = allows user org' key d ≡ b

  abbrev vouches : Db → Membership → Bool
  vouches d m =
      m.user_id == user
      && m.organization_id == org'
      && member_active m.status
      && org_is_active d m.organization_id
      && role_grants d m.role_id key

  module _ (org : Uuid) (other : (org == org') ≡ false) where
    remove_member-Answers : (target : Uuid) → Keeps Answers (remove_member org target)
    unfolding remove_member
    remove_member-Answers target = record {
      at = λ e w h. ground (
        arith,
        exists-delete_apart (is_member org target) (vouches w.db) (λ x hit. ground arith)
            w.db.memberships,
      );
    }

    update_member_role-Answers : (target r : Uuid) → Keeps Answers (update_member_role org target r)
    unfolding update_member_role
    update_member_role-Answers target r = record {
      at = λ e w h. ground (
        arith,
        exists-update_apart (is_member org target) (vouches w.db) (set_role r)
            (λ x hit. (ground arith, ground arith)) w.db.memberships,
      );
    }

  create_link_invitation-Answers :
      (org r creator : Uuid) (token : Digest) (expires : Time)
      → Keeps Answers (create_link_invitation org r creator token expires)
  unfolding create_link_invitation
  create_link_invitation-Answers org r creator token expires = record { at = λ e w h. ground arith }

  revoke_invitation-Answers : (id : Uuid) → Keeps Answers (revoke_invitation id)
  unfolding revoke_invitation
  revoke_invitation-Answers id = record { at = λ e w h. ground arith }

ruleset isolation_rules = (
  keeps_rules, remove_member-Answers, update_member_role-Answers, create_link_invitation-Answers,
  revoke_invitation-Answers,
)

-- The organization that a call is made for; an invitation token names none.
abbrev organization_of : Call → Option Uuid
organization_of (remove_call org actor target) = some org
organization_of (assign_member_role org actor target r) = some org
organization_of (leave_org org user) = some org
organization_of (invite_member org inviter r) = some org
organization_of (accept_invite user raw) = none
organization_of (replace_invite org actor id) = some org

module _ (sha256 : String → Digest) (pg : Driver) (user org' : Uuid) (key : String) (b : Bool) where
  perform-Answers :
      (c : Call) (org : Uuid)
      → organization_of c ≡ some org
      → (org == org') ≡ false
      → Keeps (Answers user org' key b) (perform sha256 pg c)
  unfolding perform remove remove_tx assign_role assign_role_tx leave leave_tx invite rotate_invite
      rotate_tx get_member_role_kind get_role_kind_by_id get_organization_type organization_status
      count_active_owners get_invitation_by_id new_invite_token
  perform-Answers (remove_call o actor target) org for other =
      let apart : (o == org') ≡ false = ground arith in search (isolation_rules, apart) depth 15
  perform-Answers (assign_member_role o actor target r) org for other =
      let apart : (o == org') ≡ false = ground arith in search (isolation_rules, apart) depth 15
  perform-Answers (leave_org o u) org for other =
      let apart : (o == org') ≡ false = ground arith in search (isolation_rules, apart) depth 15
  perform-Answers (invite_member o inviter r) org for other = search isolation_rules depth 15
  perform-Answers (accept_invite u raw) org for other = absurd (cc)
  perform-Answers (replace_invite o actor id) org for other = search isolation_rules depth 15

-- A call for one organization changes no permission in another: whatever the call, its actor and
-- its outcome, a user may do there afterwards what the user might do before.
pub perform-isolates :
    (sha256 : String → Digest) (pg : Driver) (c : Call) (org org' user : Uuid) (key : String)
    (e : Env) (w : World)
    → organization_of c ≡ some org
    → (org == org') ≡ false
    → allows user org' key (perform sha256 pg c e w).1.db ≡ allows user org' key w.db
perform-isolates sha256 pg c org org' user key e w for other =
    (perform-Answers sha256 pg user org' key (allows user org' key w.db) c org for other).at e w
      refl
