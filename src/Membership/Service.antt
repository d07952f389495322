-- ===== src/Membership/Service.antt =====
-- internal/membership/service.go. The function that a transaction runs is a definition of its own
-- (`remove_tx`), so that it can be read at the database at which the transaction starts.
use multi_tenant_authorizati.Base.{
  ◌+◌, ◌*◌, String, Bool, List, ltb, leb, ◌&&◌, ◌||◌, not, if◌then◌else◌,
}
use multi_tenant_authorizati.Apperrors.{
  personal_workspace, owner_action_restricted, invalid_token, last_owner, organization_not_found,
  external,
}
use multi_tenant_authorizati.Db.Schema.{
  Uuid, Time, Digest, Invitation, RoleKind, is_owner, is_personal, org_active,
}
use multi_tenant_authorizati.Db.Go.{Go, pure, raise_if, ◌>>=◌, ◌>>◌, now, random_text}
use multi_tenant_authorizati.Db.Driver.{Driver}
use multi_tenant_authorizati.Membership.Repository.{
  Member, list_members, get_member_role_kind, get_role_kind_by_id, get_organization_type,
  organization_status, count_active_owners, remove_member, update_member_role, create_membership,
  create_link_invitation, get_active_invitation_by_token_hash, get_invitation_by_id,
  revoke_invitation, mark_invitation_accepted,
}

-- Seven days, in nanoseconds.
abbrev pub invitation_ttl : Time
invitation_ttl = 7 * 24 * 3_600_000_000_000

pub record InviteResult : Type 0 where
  pub token : String
  pub expires_at : Time

unfoldable pub service_list_members : Uuid → Go (List Member)
service_list_members org = list_members org

unfoldable pub new_invite_token : Go String
new_invite_token = random_text external

-- `if kind == "owner"`: only an owner may act on an owner.
abbrev pub require_owner_actor : Uuid → Uuid → Go Unit
require_owner_actor org actor = do
  kind ← get_member_role_kind org actor
  raise_if (not (is_owner kind)) owner_action_restricted

-- The last active owner stays.
abbrev pub require_other_owner : Uuid → Go Unit
require_other_owner org = do count ← count_active_owners org; raise_if (leb count 1) last_owner

abbrev pub when : Bool → Go Unit → Go Unit
when b m = if b then m else pure tt

unfoldable pub remove_tx : Uuid → Uuid → Uuid → Go Unit
remove_tx org actor target = do
  target_kind ← get_member_role_kind org target
  when (is_owner target_kind) (do require_owner_actor org actor; require_other_owner org)
  remove_member org target

unfoldable pub assign_role_tx : RoleKind → Uuid → Uuid → Uuid → Uuid → Go Unit
assign_role_tx new_kind org actor target new_role = do
  current_kind ← get_member_role_kind org target
  when (is_owner new_kind || is_owner current_kind) (require_owner_actor org actor)
  when (is_owner current_kind && not (is_owner new_kind)) (require_other_owner org)
  update_member_role org target new_role

unfoldable pub leave_tx : Uuid → Uuid → Go Unit
leave_tx org user = do
  kind ← get_member_role_kind org user
  status ← organization_status org
  raise_if (not (org_active status)) organization_not_found
  when (is_owner kind) (require_other_owner org)
  remove_member org user

unfoldable pub accept_tx : Invitation → Uuid → Go Unit
accept_tx inv user = do
  mark_invitation_accepted inv.id
  create_membership inv.organization_id user inv.role_id

unfoldable pub rotate_tx : Invitation → Uuid → Uuid → Digest → Time → Go Uuid
rotate_tx inv org actor token expires = do
  revoke_invitation inv.id
  create_link_invitation org inv.role_id actor token expires

module _ (pg : Driver) where
  unfoldable pub remove : Uuid → Uuid → Uuid → Go Unit
  remove org actor target = pg.begin_func (remove_tx org actor target)

  unfoldable pub assign_role : Uuid → Uuid → Uuid → Uuid → Go Unit
  assign_role org actor target new_role = do
    new_kind ← get_role_kind_by_id org new_role
    pg.begin_func (assign_role_tx new_kind org actor target new_role)

  unfoldable pub leave : Uuid → Uuid → Go Unit
  leave org user = pg.begin_func (leave_tx org user)

-- `sha256` stands for the hex digest of crypto/sha256, behind auth.HashOpaqueToken.
module _ (sha256 : String → Digest) where
  unfoldable pub invite : Uuid → Uuid → Uuid → Go InviteResult
  invite org inviter role = do
    org_type ← get_organization_type org
    raise_if (is_personal org_type) personal_workspace
    target_kind ← get_role_kind_by_id org role
    when (is_owner target_kind) (require_owner_actor org inviter)
    raw_token ← new_invite_token
    t ← now
    _ ← create_link_invitation org role inviter (sha256 raw_token) (t + invitation_ttl)
    pure (record { token = raw_token; expires_at = t + invitation_ttl })

  module _ (pg : Driver) where
    unfoldable pub accept : Uuid → String → Go Uuid
    accept user raw_token = do
      inv ← get_active_invitation_by_token_hash (sha256 raw_token)
      t ← now
      raise_if (ltb inv.expires_at t) invalid_token
      pg.begin_func (accept_tx inv user)
      pure inv.organization_id

    unfoldable pub rotate_invite : Uuid → Uuid → Uuid → Go InviteResult
    rotate_invite org actor invitation = do
      inv ← get_invitation_by_id org invitation
      target_kind ← get_role_kind_by_id org inv.role_id
      when (is_owner target_kind) (require_owner_actor org actor)
      raw_token ← new_invite_token
      t ← now
      _ ← pg.begin_func (rotate_tx inv org actor (sha256 raw_token) (t + invitation_ttl))
      pure (record { token = raw_token; expires_at = t + invitation_ttl })
