-- ===== src/Membership/Guards.antt =====
-- What the guards of the service establish when they let a call pass.
use multi_tenant_authorizati.Base.{◌≡◌, ◌<◌, true, some, arith}
use multi_tenant_authorizati.Db.Schema.{Uuid, Digest, RoleKind, Db, is_owner}
use multi_tenant_authorizati.Db.Ensures.{
  Ensures, Ensures-bind, Ensures-raise_if, Ensures-query_row, Ensures-weaken,
}
use multi_tenant_authorizati.Membership.Repository.{
  active_owners, member_kind, get_member_role_kind, count_active_owners, get_role_kind_by_id,
  get_organization_type, organization_status, get_invitation_by_id,
  get_active_invitation_by_token_hash, role_kind_in, active_org_type, org_status, invitation_in,
  active_invitation,
}
use multi_tenant_authorizati.Membership.Service.{require_owner_actor, require_other_owner}

-- The user is an active owner of the organization.
abbrev pub IsOwner : Uuid → Uuid → Db → Type 0
IsOwner org user d = (k : RoleKind) × (member_kind org user d ≡ some k) × (is_owner k ≡ true)

module _ {P : Db → Type 0} where
  -- A read leaves the database, and its value is what the query finds there.
  pub get_member_role_kind-Ensures :
      (org user : Uuid)
      → Ensures P (get_member_role_kind org user) (λ k d. P d × (member_kind org user d ≡ some k))
  unfolding get_member_role_kind
  get_member_role_kind-Ensures org user = Ensures-query_row _ _

  pub get_role_kind_by_id-Ensures :
      (org r : Uuid)
      → Ensures P (get_role_kind_by_id org r) (λ k d. P d × (role_kind_in org r d ≡ some k))
  unfolding get_role_kind_by_id
  get_role_kind_by_id-Ensures org r = Ensures-query_row _ _

  pub get_organization_type-Ensures :
      (org : Uuid)
      → Ensures P (get_organization_type org) (λ k d. P d × (active_org_type org d ≡ some k))
  unfolding get_organization_type
  get_organization_type-Ensures org = Ensures-query_row _ _

  pub organization_status-Ensures :
      (org : Uuid) → Ensures P (organization_status org) (λ k d. P d × (org_status org d ≡ some k))
  unfolding organization_status
  organization_status-Ensures org = Ensures-query_row _ _

  pub get_invitation_by_id-Ensures :
      (org id : Uuid)
      → Ensures P (get_invitation_by_id org id) (λ k d. P d × (invitation_in org id d ≡ some k))
  unfolding get_invitation_by_id
  get_invitation_by_id-Ensures org id = Ensures-query_row _ _

  pub get_active_invitation_by_token_hash-Ensures :
      (token : Digest)
      → Ensures P
          (get_active_invitation_by_token_hash token)
          (λ i d. P d × (active_invitation token d ≡ some i))
  unfolding get_active_invitation_by_token_hash
  get_active_invitation_by_token_hash-Ensures token = Ensures-query_row _ _

  pub require_other_owner-Ensures :
      (org : Uuid) → Ensures P (require_other_owner org) (λ _ d. P d × (1 < active_owners org d))
  unfolding count_active_owners
  require_other_owner-Ensures org = record { at = λ e w a p h. ground arith }

  pub require_owner_actor-Ensures :
      (org actor : Uuid)
      → Ensures P (require_owner_actor org actor) (λ _ d. P d × IsOwner org actor d)
  require_owner_actor-Ensures org actor =
      Ensures-bind (get_member_role_kind-Ensures org actor)
        λ k. Ensures-weaken (λ _ d q. (q.0.0, (k, q.0.1, ground arith))) (Ensures-raise_if _ _)
