-- ===== src/Membership/System.antt =====
-- The service as a transition system: a step is one call, with any surroundings.
use multi_tenant_authorizati.Base.{ℕ, ◌<◌, String, arith}
use multi_tenant_authorizati.Db.Schema.{Uuid, Time, Digest, Invitation, Db}
use multi_tenant_authorizati.Db.Go.{Go, Env, World, ◌>>=◌, pure}
use multi_tenant_authorizati.Db.Driver.{Driver}
use multi_tenant_authorizati.Db.Keeps.{Keeps, keeps_rules}
use multi_tenant_authorizati.Membership.Repository.{
  active_owners, create_membership, create_link_invitation, revoke_invitation,
  mark_invitation_accepted, get_member_role_kind, get_role_kind_by_id, get_organization_type,
  get_active_invitation_by_token_hash, get_invitation_by_id,
}
use multi_tenant_authorizati.Membership.Service.{
  remove, assign_role, leave, invite, accept, rotate_invite, accept_tx, rotate_tx, new_invite_token,
}
use multi_tenant_authorizati.Membership.Valid.{IsValid}
use multi_tenant_authorizati.Membership.LastOwner.{
  remove-KeepsOwner, assign_role-KeepsOwner, leave-KeepsOwner,
}
use multi_tenant_authorizati.Membership.Preserves.{
  remove-IsValid, assign_role-IsValid, leave-IsValid, invite-IsValid, accept-IsValid,
  rotate_invite-IsValid,
}

abbrev pub HasOwner : Uuid → Db → Type 0
HasOwner org d = 0 < active_owners org d

module _ (org' : Uuid) where
  create_membership-HasOwner :
      (org user r : Uuid) → Keeps (HasOwner org') (create_membership org user r)
  unfolding create_membership
  create_membership-HasOwner org user r = record { at = λ e w h. ground arith }

  create_link_invitation-HasOwner :
      (org r creator : Uuid) (token : Digest) (expires : Time)
      → Keeps (HasOwner org') (create_link_invitation org r creator token expires)
  unfolding create_link_invitation
  create_link_invitation-HasOwner org r creator token expires = record {
    at = λ e w h. ground arith;
  }

  revoke_invitation-HasOwner : (id : Uuid) → Keeps (HasOwner org') (revoke_invitation id)
  unfolding revoke_invitation
  revoke_invitation-HasOwner id = record { at = λ e w h. ground arith }

  mark_invitation_accepted-HasOwner :
      (id : Uuid) → Keeps (HasOwner org') (mark_invitation_accepted id)
  unfolding mark_invitation_accepted
  mark_invitation_accepted-HasOwner id = record { at = λ e w h. ground arith }

ruleset owner_rules = (
  keeps_rules, create_membership-HasOwner, create_link_invitation-HasOwner,
  revoke_invitation-HasOwner, mark_invitation_accepted-HasOwner,
)

module _ (org' : Uuid) where
  accept_tx-HasOwner : (inv : Invitation) (user : Uuid) → Keeps (HasOwner org') (accept_tx inv user)
  unfolding accept_tx
  accept_tx-HasOwner inv user = search owner_rules

  rotate_tx-HasOwner :
      (inv : Invitation) (org actor : Uuid) (token : Digest) (expires : Time)
      → Keeps (HasOwner org') (rotate_tx inv org actor token expires)
  unfolding rotate_tx
  rotate_tx-HasOwner inv org actor token expires = search owner_rules

ruleset call_rules = (owner_rules, accept_tx-HasOwner, rotate_tx-HasOwner)

-- The calls that may change memberships or invitations.
pub data Call : Type 0 where
  remove_member : Uuid → Uuid → Uuid → Call
  assign_member_role : Uuid → Uuid → Uuid → Uuid → Call
  leave_org : Uuid → Uuid → Call
  invite_member : Uuid → Uuid → Uuid → Call
  accept_invite : Uuid → String → Call
  replace_invite : Uuid → Uuid → Uuid → Call

module _ (sha256 : String → Digest) (pg : Driver) where
  -- The calls return values of different types; the database is what they share.
  unfoldable pub perform : Call → Go Unit
  perform (remove_member org actor target) = remove pg org actor target
  perform (assign_member_role org actor target r) = assign_role pg org actor target r
  perform (leave_org org user) = leave pg org user
  perform (invite_member org inviter r) = do _ ← invite sha256 org inviter r; pure tt
  perform (accept_invite user raw) = do _ ← accept sha256 pg user raw; pure tt
  perform (replace_invite org actor id) = do _ ← rotate_invite sha256 pg org actor id; pure tt

  -- The databases that calls lead to, one after another.
  pub data Reaches (d : Db) : Db → Type 0 where
    here : Reaches d d
    step :
        (d' : Db) (c : Call) (e : Env) (n : ℕ)
        → Reaches d d'
        → Reaches d (perform c e (record { db = d'; step = n })).1.db

  pub perform-IsValid : (c : Call) → Keeps IsValid (perform c)
  unfolding perform
  perform-IsValid (remove_member org actor target) = remove-IsValid pg org actor target
  perform-IsValid (assign_member_role org actor target r) =
      assign_role-IsValid pg org actor target r
  perform-IsValid (leave_org org user) = leave-IsValid pg org user
  perform-IsValid (invite_member org inviter r) =
      search (keeps_rules, invite-IsValid sha256 org inviter r)
  perform-IsValid (accept_invite user raw) = search (keeps_rules, accept-IsValid sha256 pg user raw)
  perform-IsValid (replace_invite org actor id) =
      search (keeps_rules, rotate_invite-IsValid sha256 pg org actor id)

  invite-HasOwner :
      (org' org inviter r : Uuid) → Keeps (HasOwner org') (perform (invite_member org inviter r))
  unfolding perform invite get_organization_type get_role_kind_by_id get_member_role_kind
      new_invite_token
  invite-HasOwner org' org inviter r = search call_rules depth 15

  accept-HasOwner :
      (org' user : Uuid) (raw : String) → Keeps (HasOwner org') (perform (accept_invite user raw))
  unfolding perform accept get_active_invitation_by_token_hash
  accept-HasOwner org' user raw = search call_rules depth 11

  rotate_invite-HasOwner :
      (org' org actor id : Uuid) → Keeps (HasOwner org') (perform (replace_invite org actor id))
  unfolding perform rotate_invite get_invitation_by_id get_role_kind_by_id get_member_role_kind
      new_invite_token
  rotate_invite-HasOwner org' org actor id = search call_rules depth 15

  pub perform-HasOwner :
      (org' : Uuid) (c : Call) (e : Env) (w : World)
      → IsValid w.db
      → HasOwner org' w.db
      → HasOwner org' (perform c e w).1.db
  unfolding perform
  perform-HasOwner org' (remove_member org actor target) e w v h =
      remove-KeepsOwner pg org actor target org' e w v h
  perform-HasOwner org' (assign_member_role org actor target r) e w v h =
      assign_role-KeepsOwner pg org actor target r org' e w v h
  perform-HasOwner org' (leave_org org user) e w v h = leave-KeepsOwner pg org user org' e w v h
  perform-HasOwner org' (invite_member org inviter r) e w v h =
      (invite-HasOwner org' org inviter r).at e w h
  perform-HasOwner org' (accept_invite user raw) e w v h = (accept-HasOwner org' user raw).at e w h
  perform-HasOwner org' (replace_invite org actor id) e w v h =
      (rotate_invite-HasOwner org' org actor id).at e w h

  -- Whatever calls are made, in whatever order and whichever of them fail, a valid database stays
  -- valid: a user has one membership at most in an organization, each membership and invitation
  -- names a role of its own organization, and a token has one active invitation at most.
  reaches-IsValid : (d d' : Db) → IsValid d → Reaches d d' → IsValid d'
  reaches-IsValid d _ v here = v
  reaches-IsValid d _ v (step d' c e n r) =
      (perform-IsValid c).at e (record { db = d'; step = n }) (reaches-IsValid d d' v r)

  -- Whatever calls are made, an organization that has an active owner in a valid database keeps
  -- one.
  reaches-HasOwner :
      (org' : Uuid) (d d' : Db)
      → IsValid d
      → 0 < active_owners org' d
      → Reaches d d'
      → 0 < active_owners org' d'
  reaches-HasOwner org' d _ v h here = h
  reaches-HasOwner org' d _ v h (step d' c e n r) =
      perform-HasOwner org' c e (record { db = d'; step = n }) (reaches-IsValid d d' v r)
        (reaches-HasOwner org' d d' v h r)
